-- ===== src/Proof.antt =====
-- src/proof.rs: proof trees that share their subtrees, and the steps that they are written as.
pub mod Tree
pub mod Rounds
pub mod Unshared
pub mod Replay
pub mod Sharing
pub mod Hashes
pub mod Build
mod Tests
use metamath_knife.Base.{
  ℕ, zero, suc, ◌+◌, ◌-◌, ◌<◌, Bool, true, false, not, ◌&&◌, Option, none, some, List, [], ◌∷◌,
  ◌++◌, length, get_elem?, set, slice, replicate, ltb, ◌==◌, if◌then◌else◌,
}
use metamath_knife.Base.Map.{lookup, insert}
use metamath_knife.Address.{StatementAddress}
use metamath_knife.Diag.{Outcome, ok, panic, or_panic, ◌>>=◌}

pub record ProofTree : Type 0 where
  pub address : StatementAddress
  pub children : List ℕ
  pub hash : ℕ

pub record ProofTreeArray : Type 0 where
  pub map : List (ℕ × ℕ)
  pub trees : List ProofTree
  pub exprs : List (List ℕ)
  pub qed : ℕ
  pub indent : List ℕ

-- The parent of a step, and the place of the step among its children.
abbrev pub HypRef : Type 0
HypRef = Option (StatementAddress × ℕ)

pub data RpnStep : Type 0 where
  normal : ℕ → StatementAddress → HypRef → RpnStep
  backref : ℕ → HypRef → RpnStep

pub data ProofStyle : Type 0 where
  compressed plain packed_plain explicit_plain packed_explicit : ProofStyle

-- `ProofStyle::explicit` and `ProofStyle::packed`
abbrev pub is_explicit : ProofStyle → Bool
is_explicit explicit_plain = true
is_explicit packed_explicit = true
is_explicit _ = false

abbrev pub is_packed : ProofStyle → Bool
is_packed compressed = true
is_packed packed_plain = true
is_packed packed_explicit = true
is_packed _ = false

-- `DefaultHasher` is a parameter: the hash of an address and the hashes of the children.
module _ (hash_of : StatementAddress → List ℕ → ℕ) where
  unfoldable pub child_hashes : List ProofTree → List ℕ → Outcome (List ℕ)
  child_hashes trees [] = ok []
  child_hashes trees (ix ∷ ixs) = do
    tree ← or_panic (get_elem? trees ix)
    hashes ← child_hashes trees ixs
    ok (tree.hash ∷ hashes)

  -- `ProofTree::new`
  unfoldable pub new_tree : ProofTreeArray → StatementAddress → List ℕ → Outcome ProofTree
  unfolding child_hashes
  new_tree parent addr children = do
    hashes ← child_hashes parent.trees children
    ok (record { address = addr; children = children; hash = hash_of addr hashes })

  -- `ProofTreeArray::index` goes by the hash alone.
  abbrev pub index_of : ProofTreeArray → ProofTree → Option ℕ
  index_of arr tree = lookup (λ a b. a == b) tree.hash arr.map

  -- The last byte of a symbol has its high bit set.
  unfoldable pub spaced : List ℕ → List ℕ
  spaced [] = []
  spaced (chr ∷ chrs) = if ltb chr 128 then chr ∷ spaced chrs else (chr - 128) ∷ 32 ∷ spaced chrs

  -- `Vec::pop_byte`
  abbrev pub pop_byte : List ℕ → List ℕ
  pop_byte [] = []
  pop_byte (x ∷ []) = []
  pop_byte (x ∷ y ∷ xs) = x ∷ pop_byte (y ∷ xs)

  unfoldable pub add_tree : ProofTreeArray → ProofTree → List ℕ → ProofTreeArray × ℕ
  unfolding spaced
  add_tree arr tree expr = (
    record arr {
      map = insert (λ a b. a == b) tree.hash (length arr.trees) arr.map;
      trees = arr.trees ++ tree ∷ [];
      exprs = arr.exprs ++ pop_byte (32 ∷ spaced expr) ∷ [];
    },
    length arr.trees,
  )

  unfoldable pub build :
      ProofTreeArray → StatementAddress → List ℕ → List ℕ → ℕ → ℕ → Outcome (ProofTreeArray × ℕ)
  unfolding new_tree add_tree
  build arr addr trees pool start end = do
    tree ← new_tree arr addr trees
    elim (index_of arr tree) [
      | some ix ↦ ok (arr, ix)
      | none ↦ do expr ← or_panic (slice pool start end); ok (add_tree arr tree expr)
    ]

-- `out[hix] += 1`, for the children of a tree.
unfoldable pub count_children : List ℕ → List ℕ → Outcome (List ℕ)
count_children out [] = ok out
count_children out (hix ∷ hixs) = do
  n ← or_panic (get_elem? out hix)
  count_children (set out hix (n + 1)) hixs

unfoldable pub count_in : List ℕ → List ProofTree → Outcome (List ℕ)
unfolding count_children
count_in out [] = ok out
count_in out (tree ∷ trees) = do out' ← count_children out tree.children; count_in out' trees

unfoldable pub count_parents : ProofTreeArray → Outcome (List ℕ)
unfolding count_in
count_parents arr = count_in (replicate (length arr.trees) 0) arr.trees

-- What `output_step` changes.
pub record Env : Type 0 where
  pub out : List RpnStep
  pub backrefs : List ℕ
  pub count : ℕ

abbrev pub emit : Env → RpnStep → Env
emit env step = record env { out = env.out ++ step ∷ [] }

abbrev pub is_leaf : List ℕ → Bool
is_leaf [] = true
is_leaf (_ ∷ _) = false

-- A step that was written: it gets a number if it will be used again.
abbrev pub emit_normal : Env → ℕ → ProofTree → ℕ → HypRef → Env
emit_normal env step tree parents hyp =
    if ltb 1 parents && not (is_leaf tree.children)
    then record {
      out = env.out ++ normal (env.count + 1) tree.address hyp ∷ [];
      backrefs = set env.backrefs step (env.count + 1);
      count = env.count + 1;
    }
    else emit env (normal 0 tree.address hyp)

module _ (arr : ProofTreeArray) (parents : List ℕ) (explicit : Bool) where
  abbrev pub hyp_ref : StatementAddress → ℕ → HypRef
  hyp_ref addr i = if explicit then some (addr, i) else none

  -- The children of a tree, from a place on; `output` writes one of them.
  abbrev pub output_children :
      (Env → ℕ → HypRef → Outcome Env) → Env → StatementAddress → ℕ → List ℕ → Outcome Env
  output_children output env addr i [] = ok env
  output_children output env addr i (hix ∷ hixs) = do
    env' ← output env hix (hyp_ref addr i)
    output_children output env' addr (suc i) hixs

  -- On fuel: the depth of the recursion.
  unfoldable pub output_step : ℕ → Env → ℕ → HypRef → Outcome Env
  output_step zero env step hyp = panic
  output_step (suc fuel) env step hyp = do
    number ← or_panic (get_elem? env.backrefs step)
    elim (number == 0) [
      | false ↦ ok (emit env (backref number hyp))
      | true ↦ do
        tree ← or_panic (get_elem? arr.trees step)
        env' ← output_children (output_step fuel) env tree.address 0 tree.children
        uses ← or_panic (get_elem? parents step)
        ok (emit_normal env' step tree uses hyp)
    ]

  unfoldable pub to_rpn : Outcome (List RpnStep)
  unfolding output_step
  to_rpn = do
    env ←
        output_step (suc arr.qed)
          (record { out = []; backrefs = replicate (length arr.trees) 0; count = 0 }) arr.qed none
    ok env.out

-- The places on the way to a step, the innermost first, each with the child that comes next.
pub record NormalIter : Type 0 where
  pub stack : List (ℕ × ℕ)

module _ (arr : ProofTreeArray) (explicit : Bool) where
  abbrev pub normal_iter : NormalIter
  normal_iter = record { stack = (arr.qed, 0) ∷ [] }

  -- A tree all of whose children were given: it is given as the next child of the tree below.
  abbrev pub give : ProofTree → List (ℕ × ℕ) → Outcome (NormalIter × Option RpnStep)
  give tree [] = ok (record { stack = [] }, some (normal 0 tree.address none))
  give tree ((lix, i) ∷ below) = elim explicit [
    | true ↦ do
      parent ← or_panic (get_elem? arr.trees lix)
      ok (
        record { stack = (lix, suc i) ∷ below },
        some (normal 0 tree.address (some (parent.address, i))),
      )
    | false ↦ ok (record { stack = (lix, suc i) ∷ below }, some (normal 0 tree.address none))
  ]

  -- On fuel: how far down the next tree without children is.
  unfoldable pub next : ℕ → NormalIter → Outcome (NormalIter × Option RpnStep)
  next zero it = panic
  next (suc fuel) it = elim it.stack [
    | [] ↦ ok (it, none)
    | (ix, child) ∷ below ↦ do
      tree ← or_panic (get_elem? arr.trees ix)
      elim (get_elem? tree.children child) [
        | some hix ↦ next fuel (record { stack = (hix, 0) ∷ (ix, child) ∷ below })
        | none ↦ give tree below
      ]
  ]
