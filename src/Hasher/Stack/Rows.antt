-- ===== src/Hasher/Stack/Rows.antt =====
-- The array of rows as a stack of trees, and the push as the push of the abstract counter.
use blake.Hasher.Node.{parent_cv, output_chaining_value, parent_output}
use blake.Base.{ℕ, zero, suc, ◌+◌, ◌/◌, ◌%◌, ◌≤◌, ◌<◌, ◌≡◌, ◌≢◌, refl, sym, ap, ◌∙◌, arith}
use blake.Base.{List, [], ◌∷◌, map, length, length-set, get_elem?, set, get_elem?-set_self}
use blake.Base.{Option, some, lt→ltb, eq→==, ne→not_==}
use blake.Word.{u8, words_to_bytes}
use native.Mathlib.Decide.{ℕ_discrete}
use blake.Compress.{Compressor}
use blake.Base.{some_inj}
use blake.Merkle.{Tree, node, push}
use blake.Merkle.Counter.{push-stop, push-merge, push-fault}
use blake.Hasher.{Blake4Hasher}
use blake.Hasher.Stack.{store_row, pop_merge, push_loop, hasher_push_cv}
use blake.Hasher.Tree.{Leaf, tree_cv}
use blake.Hasher.Tree.Words.{IsCv, IsFlags, stored_cv, tree_cv-node-IsCv}

-- The first `n` rows hold these chaining values, the newest in the last.
abbrev pub Holds : List (List ℕ) → ℕ → List (List ℕ) → Type 0
Holds rows n [] = n ≡ 0
Holds rows n (cv ∷ cvs) =
    (m : ℕ) × (n ≡ suc m) × (get_elem? rows m ≡ some (words_to_bytes cv)) × Holds rows m cvs

pub Holds-length :
    (rows : List (List ℕ)) (n : ℕ) (cvs : List (List ℕ)) → Holds rows n cvs → n ≡ length cvs
Holds-length rows n [] h = h
Holds-length rows n (cv ∷ cvs) (m, e, row, rest) = e ∙ ap suc (Holds-length rows m cvs rest)

get_elem?-set_above :
    (rows : List (List ℕ)) (i j : ℕ) (v : List ℕ)
    → j < i
    → get_elem? (set rows i v) j ≡ get_elem? rows j
get_elem?-set_above [] i j v h = refl
get_elem?-set_above (r ∷ rows) zero j v h = absurd (omega arith)
get_elem?-set_above (r ∷ rows) (suc i) zero v h = refl
get_elem?-set_above (r ∷ rows) (suc i) (suc j) v h = get_elem?-set_above rows i j v (omega arith)

-- A write above the stack leaves it alone.
Holds-set :
    (rows : List (List ℕ)) (n i : ℕ) (v : List ℕ) (cvs : List (List ℕ))
    → n ≤ i
    → Holds rows n cvs
    → Holds (set rows i v) n cvs
Holds-set rows n i v [] h holds = holds
Holds-set rows n i v (cv ∷ cvs) h (m, e, row, rest) = (
  m,
  e,
  get_elem?-set_above rows i m v (omega arith) ∙ row,
  Holds-set rows m i v cvs (omega arith) rest,
)

abbrev pub with_stack : Blake4Hasher → List (List ℕ) → ℕ → Blake4Hasher
with_stack h rows n = record h { cv_stack = rows; cv_stack_len = n }

module _ (c : Compressor) where
  -- The chaining value of a tree under the key and flags of a hasher.
  abbrev pub cv_under : Blake4Hasher → Tree Leaf → List ℕ
  cv_under h t = tree_cv c h.key_words h.flags t

  abbrev pub AllCv : Blake4Hasher → List (Tree Leaf) → Type 0
  AllCv h [] = Unit {0}
  AllCv h (t ∷ ts) = IsCv (cv_under h t) × AllCv h ts

  -- The stack of a hasher holds these trees.
  pub record HoldsTrees (h : Blake4Hasher) (ts : List (Tree Leaf)) : Type 0 where
    pub rows : length h.cv_stack ≡ 54
    pub held : Holds h.cv_stack h.cv_stack_len (map (cv_under h) ts)
    pub words : AllCv h ts

  -- A push returned the hasher with only its stack changed, to hold these trees.
  pub record Pushed (h : Blake4Hasher) (ts : List (Tree Leaf)) (out : Option Blake4Hasher)
      : Type 0 where
    pub new_rows : List (List ℕ)
    pub new_len : ℕ
    pub returns : out ≡ some (with_stack h new_rows new_len)
    pub holds : HoldsTrees (with_stack h new_rows new_len) ts

  length-map : (h : Blake4Hasher) (ts : List (Tree Leaf)) → length (map (cv_under h) ts) ≡ length ts
  length-map h [] = refl
  length-map h (t ∷ ts) = ap suc (length-map h ts)

  pub HoldsTrees-length :
      (h : Blake4Hasher) (ts : List (Tree Leaf)) → HoldsTrees h ts → h.cv_stack_len ≡ length ts
  HoldsTrees-length h ts k =
      Holds-length h.cv_stack h.cv_stack_len (map (cv_under h) ts) k.held ∙ length-map h ts

  store_row-Pushed :
      (h : Blake4Hasher) (t : Tree Leaf) (ts : List (Tree Leaf))
      → HoldsTrees h ts
      → IsCv (cv_under h t)
      → length ts < 54
      → Pushed h (t ∷ ts) (store_row h (cv_under h t))
  unfolding store_row
  store_row-Pushed h t ts k ok lt =
      let n : h.cv_stack_len < 54 = omega (arith, HoldsTrees-length h ts k) in
      let row = words_to_bytes (cv_under h t) in
      record {
        new_rows = set h.cv_stack h.cv_stack_len row;
        new_len = h.cv_stack_len + 1;
        returns =
            rw (lt→ltb h.cv_stack_len (length h.cv_stack) (omega (arith, k.rows)))
              (ap (λ m. some (with_stack h (set h.cv_stack h.cv_stack_len row) m)) (omega arith));
        holds = record {
          rows = length-set h.cv_stack h.cv_stack_len row ∙ k.rows;
          held = (
            h.cv_stack_len,
            omega arith,
            get_elem?-set_self h.cv_stack h.cv_stack_len row (omega (arith, k.rows)),
            Holds-set h.cv_stack h.cv_stack_len h.cv_stack_len row (map (cv_under h) ts)
                (omega arith) k.held,
          );
          words = (ok, k.words);
        };
      }

  -- Popping the newest subtree and merging it with the new one.
  pop_merge-node :
      (h : Blake4Hasher) (left t : Tree Leaf) (ts : List (Tree Leaf))
      → HoldsTrees h (left ∷ ts)
      → length ts < 54
      → (m : ℕ) × (pop_merge c h (cv_under h t)
          ≡ some (record h { cv_stack_len = m }, cv_under h (node left t)))
        × HoldsTrees (record h { cv_stack_len = m }) ts
  unfolding pop_merge parent_cv words_to_bytes output_chaining_value parent_output
  pop_merge-node h left t ts k lt =
      let (m, e, row, rest) = k.held in
      let below = Holds-length h.cv_stack m (map (cv_under h) ts) rest ∙ length-map h ts in
      let index : u8 (h.cv_stack_len + 255) ≡ m = omega arith in
      (
        m,
        rw (index, row, stored_cv (cv_under h left) k.words.0),
        record { rows = k.rows; held = rest; words = k.words.1 },
      )

  push_loop-stop :
      (fuel : ℕ) (h : Blake4Hasher) (cv : List ℕ) (total : ℕ)
      → total % 2 ≢ 0
      → push_loop c (suc fuel) h cv total ≡ store_row h cv
  unfolding push_loop
  push_loop-stop fuel h cv total odd = rw (ne→not_== (total % 2) 0 odd)

  push_loop-merge :
      (fuel : ℕ) (h h' : Blake4Hasher) (cv cv' : List ℕ) (total : ℕ)
      → total % 2 ≡ 0
      → pop_merge c h cv ≡ some (h', cv')
      → push_loop c (suc fuel) h cv total ≡ push_loop c fuel h' cv' (total / 2)
  unfolding push_loop
  push_loop-merge fuel h h' cv cv' total even e = rw (eq→== (total % 2) 0 even, e)

  stop_Pushed :
      (fuel : ℕ) (h : Blake4Hasher) (t : Tree Leaf) (total : ℕ) (ts ts' : List (Tree Leaf))
      → HoldsTrees h ts
      → IsCv (cv_under h t)
      → length ts < 54
      → total % 2 ≢ 0
      → push node (suc fuel) total t ts ≡ some ts'
      → Pushed h ts' (push_loop c (suc fuel) h (cv_under h t) total)
  stop_Pushed fuel h t total ts ts' k ok lt odd e =
      let same : t ∷ ts ≡ ts' = some_inj (sym (push-stop node fuel total t ts (omega arith)) ∙ e) in
      rw (push_loop-stop fuel h (cv_under h t) total odd, ← same) (store_row-Pushed h t ts k ok lt)

  -- Whatever the abstract counter does with the trees, the loop does with the rows.
  push_loop-Pushed :
      (fuel : ℕ) (h : Blake4Hasher) (t : Tree Leaf) (total : ℕ) (ts ts' : List (Tree Leaf))
      → IsCv h.key_words
      → IsFlags h.flags
      → HoldsTrees h ts
      → IsCv (cv_under h t)
      → length ts < 54
      → push node fuel total t ts ≡ some ts'
      → Pushed h ts' (push_loop c fuel h (cv_under h t) total)
  push_loop-Pushed zero h t total ts ts' hk hf k ok lt e = unfold push in cc
  push_loop-Pushed (suc fuel) h t total [] ts' hk hf k ok lt e = elim (ℕ_discrete (total % 2) 0) [
    | yes even ↦ let never = sym (push-fault node fuel total t even) ∙ e in cc
    | no odd ↦ stop_Pushed fuel h t total [] ts' k ok lt odd e
  ]
  push_loop-Pushed (suc fuel) h t total (left ∷ ts) ts' hk hf k ok lt e =
      elim (ℕ_discrete (total % 2) 0) [
        | yes even ↦
            let (m, popped, k') = pop_merge-node h left t ts k (omega arith) in
            let h' = record h { cv_stack_len = m } in
            let ih =
              push_loop-Pushed fuel h' (node left t) (total / 2) ts ts' hk hf k'
                (tree_cv-node-IsCv c h.key_words h.flags left t hk hf) (omega arith)
                (sym (push-merge node fuel total t left ts even) ∙ e) in
            record {
              new_rows = ih.new_rows;
              new_len = ih.new_len;
              returns =
                  push_loop-merge fuel h h' (cv_under h t) (cv_under h (node left t)) total even
                    popped
                  ∙ ih.returns;
              holds = ih.holds;
            }
        | no odd ↦ stop_Pushed fuel h t total (left ∷ ts) ts' k ok lt odd e
      ]

  -- A push of the chaining value of a tree onto a stack that holds trees, with a row to spare:
  -- where the push of the abstract counter gives a list of trees, the code returns the hasher with
  -- only its stack changed, and that stack holds those trees.
  pub hasher_push_cv-Pushed :
      (h : Blake4Hasher) (t : Tree Leaf) (total : ℕ) (ts ts' : List (Tree Leaf))
      → IsCv h.key_words
      → IsFlags h.flags
      → HoldsTrees h ts
      → IsCv (cv_under h t)
      → length ts < 54
      → push node 64 total t ts ≡ some ts'
      → Pushed h ts' (hasher_push_cv c h (cv_under h t) total)
  unfolding hasher_push_cv
  hasher_push_cv-Pushed h t total ts ts' hk hf k ok lt e =
      push_loop-Pushed 64 h t total ts ts' hk hf k ok lt e
