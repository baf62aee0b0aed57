-- ===== src/Verify/Derivation.antt =====
-- What a proof is, with no stack and no buffer: derivations from the hypotheses of a frame by the
-- assertions that are in scope. The verifier of src/verify.rs is proved against this.
use Prim.Native.Nat.{Ordering}
use mathlib.Core.Option
use metamath_knife.Base.{
  ℕ, ◌<◌, true, false, Option, none, some, List, [], ◌∷◌, ◌++◌, get_elem?, slice, mark_last, All,
  ◌≡◌,
}
use metamath_knife.Address.{Token, StatementAddress}
use metamath_knife.BitSet
use metamath_knife.BitSet.{Bitset, has_bit, set_bit, bitor_assign}
use metamath_knife.Scopeck.{ExprFragment, VerifyExpr, Hyp, essential, floating, Frame, typecode}
use metamath_knife.Verify.{Oracle}
use metamath_knife.Verify.Prepare.{is_assertion}

-- An expression with a byte string for each variable.
unfoldable pub fragments_bytes : List ℕ → (ℕ → List ℕ) → List ExprFragment → Option (List ℕ)
fragments_bytes pool value [] = some []
fragments_bytes pool value (part ∷ parts) = elim (slice pool part.prefix.start part.prefix.end) [
  | none ↦ none
  | some prefix ↦
      Option.map (λ rest. prefix ++ value part.var ++ rest) (fragments_bytes pool value parts)
]

unfoldable pub expr_bytes : List ℕ → (ℕ → List ℕ) → VerifyExpr → Option (List ℕ)
unfolding fragments_bytes
expr_bytes pool value expr = elim (fragments_bytes pool value expr.tail) [
  | none ↦ none
  | some front ↦ Option.map (λ rump. front ++ rump) (slice pool expr.rump.start expr.rump.end)
]

-- The variables of an expression, each with the set of variables that stand for it.
unfoldable pub expr_vars : Bitset → (ℕ → Bitset) → List ExprFragment → Bitset
expr_vars out value [] = out
expr_vars out value (part ∷ parts) = expr_vars (bitor_assign out (value part.var)) value parts

unfoldable pub own_vars : Bitset → List ExprFragment → Bitset
own_vars out [] = out
own_vars out (part ∷ parts) = own_vars (set_bit out part.var) parts

unfoldable pub numbered : Bitset → (ℕ → ℕ) → List ℕ → Bitset
numbered out number [] = out
numbered out number (a ∷ as') = numbered (set_bit out (number a)) number as'

module _ (o : Oracle) (cur : Frame) where
  -- A variable of the current frame stands for its own name.
  unfoldable pub name_of : ℕ → List ℕ
  name_of var = elim (get_elem? cur.var_list var) [
    | none ↦ []
    | some atom ↦ elim (o.atom_name atom) [
      | none ↦ []
      | some name ↦ Option.get_or (mark_last name) []
    ]
  ]

  -- A frame may be used in a proof of the current one.
  abbrev pub IsActive : Frame → Option ℕ → Type 0
  IsActive f none = Unit {0}
  IsActive f (some end) =
      (cur.valid.start.segment_id ≡ f.valid.start.segment_id) × (cur.valid.start.index < end)

  pub record InScope (f : Frame) : Type 0 where
    pub earlier : o.cmp cur.valid.start f.valid.start ≡ Ordering.gt
    pub active : IsActive f f.valid.end

  -- The variables of the two expressions are pairwise disjoint in the current frame.
  abbrev pub Disjoint : Bitset → Bitset → Type 0
  Disjoint vars1 vars2 =
      (x y : ℕ)
      → has_bit vars1 x ≡ true
      → has_bit vars2 y ≡ true
      → (row : Bitset) × (get_elem? cur.optional_dv x ≡ some row) × (has_bit row y ≡ true)

  abbrev pub hyp_bytes : Hyp → Option (List ℕ)
  hyp_bytes (floating _ var _) = some (name_of var)
  hyp_bytes (essential _ expr) = expr_bytes cur.const_pool name_of expr

  abbrev pub hyp_vars : Hyp → Bitset
  hyp_vars (floating _ var _) = set_bit BitSet.new var
  hyp_vars (essential _ expr) = own_vars BitSet.new expr.tail

  -- `number` gives each variable its bit.
  module _ (number : ℕ → ℕ) where
    mutual
      -- The expression of this typecode, bytes and variables is derivable.
      pub data Derives : ℕ → List ℕ → Bitset → Type 0 where
        given :
            (i : ℕ) (h : Hyp) {code : ℕ} {bytes : List ℕ} {vars : Bitset}
            → get_elem? cur.hypotheses i ≡ some h
            → code ≡ typecode h
            → hyp_bytes h ≡ some bytes
            → vars ≡ hyp_vars h
            → Derives code bytes vars
        typed :
            (label : Token) (f : Frame) {code : ℕ} {bytes : List ℕ} {vars : Bitset}
            → o.get label ≡ some f
            → is_assertion f.stype ≡ false
            → InScope f
            → code ≡ f.target.typecode
            → bytes ≡ f.stub_expr
            → vars ≡ numbered BitSet.new number f.var_list
            → Derives code bytes vars
        applied :
            (label : Token) (f : Frame) (value : ℕ → List ℕ) (value_vars : ℕ → Bitset) {code : ℕ}
            {bytes : List ℕ} {vars : Bitset}
            → o.get label ≡ some f
            → is_assertion f.stype ≡ true
            → InScope f
            → DerivesAll f value value_vars f.hypotheses
            → All (λ pair. Disjoint (value_vars pair.0) (value_vars pair.1)) f.mandatory_dv
            → code ≡ f.target.typecode
            → expr_bytes f.const_pool value f.target ≡ some bytes
            → vars ≡ expr_vars BitSet.new value_vars f.target.tail
            → Derives code bytes vars

      -- The hypotheses of an assertion are derivable under a substitution.
      pub data DerivesAll : Frame → (ℕ → List ℕ) → (ℕ → Bitset) → List Hyp → Type 0 where
        none_left :
            {f : Frame} {value : ℕ → List ℕ} {value_vars : ℕ → Bitset}
            → DerivesAll f value value_vars []
        float_next :
            {f : Frame} {value : ℕ → List ℕ} {value_vars : ℕ → Bitset} {hyps : List Hyp}
            (addr : StatementAddress) (var code : ℕ)
            → Derives code (value var) (value_vars var)
            → DerivesAll f value value_vars hyps
            → DerivesAll f value value_vars (floating addr var code ∷ hyps)
        essential_next :
            {f : Frame} {value : ℕ → List ℕ} {value_vars : ℕ → Bitset} {hyps : List Hyp}
            (addr : StatementAddress) (expr : VerifyExpr) (bytes : List ℕ) (vars : Bitset)
            → expr_bytes f.const_pool value expr ≡ some bytes
            → Derives expr.typecode bytes vars
            → DerivesAll f value value_vars hyps
            → DerivesAll f value value_vars (essential addr expr ∷ hyps)
