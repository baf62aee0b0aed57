-- ===== src/Verify/Hypotheses.antt =====
-- src/verify.rs: the hypotheses of an assertion, taken off the stack in one pass, are derivable
-- under the substitution that is built on the way.
use metamath_knife.Base.{
  ℕ, ◌+◌, ◌<◌, true, false, some, List, [], ◌∷◌, get_elem?, length, set, get_elem?-set_self,
  get_elem?-set_ne, slice, All, All-get_elem?, ◌≡◌, ◌≢◌, refl, sym, ap, subst, ◌∙◌, contains, ltb,
  ltb→lt, ◌==◌, ==_iff, Bool-cases, inl, inr, arith,
}
use metamath_knife.Base.Map
use metamath_knife.BitSet.{Bitset}
use metamath_knife.BitSet.Iter.{IsBitset}
use metamath_knife.Address.{StatementAddress}
use metamath_knife.Diag.{ok, try_assert, bound, >>=-eq-ok, or_panic-eq-ok, try_assert-eq-ok}
use metamath_knife.Scopeck.{Range, ExprFragment, VerifyExpr, Hyp, essential, floating, Frame}
use metamath_knife.Scopeck.Ordered.{defined, VarsIn, IsOrdered}
use metamath_knife.Verify.{Oracle, StackSlot, VerifyState, nat_eq, slice_of, index}
use metamath_knife.Verify.Execute.{Substitution, process_hyp, process_hyps, do_substitute_eq}
use metamath_knife.Verify.Substitute.{
  value_of, vars_of, IsAssigned, AllAssigned, do_substitute_eq_sound,
}
use metamath_knife.Verify.Derivation.{
  expr_bytes, fragments_bytes, Derives, DerivesAll, none_left, float_next, essential_next,
}

-- What a float leaves behind.
data FloatStep (st : VerifyState) (ix var code : ℕ) (st' : VerifyState) : Type 0 where
  float_step :
      (slot : StackSlot)
      → get_elem? st.stack ix ≡ some slot
      → slot.code ≡ code
      → var < length st.subst_info
      → st' ≡ record st { subst_info = set st.subst_info var (slot.expr, slot.vars) }
      → FloatStep st ix var code st'

process_hyp-floating :
    (st : VerifyState) (f : Frame) (ix : ℕ) (addr : StatementAddress) (var code : ℕ)
    {st' : VerifyState}
    → process_hyp st f ix (floating addr var code) ≡ ok st'
    → FloatStep st ix var code st'
unfolding process_hyp
process_hyp-floating st f ix addr var code h = elim (>>=-eq-ok (index st.stack ix) _ h) [
  | bound slot top h1 ↦ elim (>>=-eq-ok (try_assert (slot.code == code) _) _ h1) [
    | bound _ same h2 ↦ elim (Bool-cases (ltb var (length st.subst_info))) [
      | inl inside ↦
          float_step slot (or_panic-eq-ok _ top) ((==_iff _ _).0 (try_assert-eq-ok _ _ same))
            (ltb→lt _ _ inside) (ground (arith, h2, inside))
      | inr outside ↦ absurd (ground (arith, h2, outside))
    ]
  ]
]

data EssentialStep (st : VerifyState) (f : Frame) (ix : ℕ) (expr : VerifyExpr) (st' : VerifyState)
    : Type 0 where
  essential_step :
      (slot : StackSlot) (bytes : List ℕ)
      → get_elem? st.stack ix ≡ some slot
      → slot.code ≡ expr.typecode
      → slice st.stack_buffer slot.expr.start slot.expr.end ≡ some bytes
      → do_substitute_eq bytes f expr st.subst_info st.stack_buffer ≡ ok true
      → st' ≡ st
      → EssentialStep st f ix expr st'

process_hyp-essential :
    (st : VerifyState) (f : Frame) (ix : ℕ) (addr : StatementAddress) (expr : VerifyExpr)
    {st' : VerifyState}
    → process_hyp st f ix (essential addr expr) ≡ ok st'
    → EssentialStep st f ix expr st'
unfolding process_hyp
process_hyp-essential st f ix addr expr h = elim (>>=-eq-ok (index st.stack ix) _ h) [
  | bound slot top h1 ↦ elim (>>=-eq-ok (try_assert (slot.code == expr.typecode) _) _ h1) [
    | bound _ same h2 ↦ elim (>>=-eq-ok (slice_of st.stack_buffer slot.expr) _ h2) [
      | bound bytes there h3 ↦
          elim (>>=-eq-ok (do_substitute_eq bytes f expr st.subst_info st.stack_buffer) _ h3) [
            | bound b equal h4 ↦ elim (>>=-eq-ok (try_assert b _) _ h4) [
              | bound _ passes h5 ↦
                  essential_step slot bytes (or_panic-eq-ok _ top)
                    ((==_iff _ _).0 (try_assert-eq-ok _ _ same)) (or_panic-eq-ok _ there)
                    (equal ∙ ap ok (try_assert-eq-ok b _ passes)) (cc)
            ]
          ]
    ]
  ]
]

-- The hypotheses change the substitution alone, and no variable that was set before.
pub record Kept (ds : List ℕ) (st st' : VerifyState) : Type 0 where
  pub stack : st'.stack ≡ st.stack
  pub stack_buffer : st'.stack_buffer ≡ st.stack_buffer
  pub prepared : st'.prepared ≡ st.prepared
  pub var2bit : st'.var2bit ≡ st.var2bit
  pub set_before :
      (var : ℕ)
      → contains ds var ≡ true
      → get_elem? st'.subst_info var ≡ get_elem? st.subst_info var

Kept-refl : (ds : List ℕ) (st : VerifyState) → Kept ds st st
Kept-refl ds st = record {
  stack = refl;
  stack_buffer = refl;
  prepared = refl;
  var2bit = refl;
  set_before = λ var c. refl;
}

-- A variable that is set anew was not set before.
Kept-set :
    (ds : List ℕ) (st st' : VerifyState) (var : ℕ) (entry : Range × Bitset)
    → contains ds var ≡ false
    → Kept (var ∷ ds) (record st { subst_info = set st.subst_info var entry }) st'
    → Kept ds st st'
Kept-set ds st st' var entry new k = record {
  stack = k.stack;
  stack_buffer = k.stack_buffer;
  prepared = k.prepared;
  var2bit = k.var2bit;
  set_before =
      λ v c. k.set_before v (ground (arith, c)) ∙ get_elem?-set_ne st.subst_info entry (other v c);
}
  where
    other : (v : ℕ) → contains ds v ≡ true → var ≢ v
    other v c e = cc (ap (contains ds) e, new, c)

pub process_hyps-Kept :
    (ds : List ℕ) (st : VerifyState) (f : Frame) (ix : ℕ) (hyps : List Hyp) {st' : VerifyState}
    → IsOrdered ds hyps
    → process_hyps st f ix hyps ≡ ok st'
    → Kept ds st st'
unfolding process_hyps
process_hyps-Kept ds st f ix [] {st'} o h =
    let e : st ≡ st' = cc in subst (λ s. Kept ds st s) e (Kept-refl ds st)
process_hyps-Kept ds st f ix (floating addr var code ∷ hyps) {st'} o h =
    elim (>>=-eq-ok (process_hyp st f ix (floating addr var code)) _ h) [
      | bound st1 first h1 ↦ elim (process_hyp-floating st f ix addr var code first) [
        | float_step slot top same inside e ↦
            Kept-set ds st st' var (slot.expr, slot.vars) o.0
              (subst (λ s. Kept (var ∷ ds) s st') e
                (process_hyps-Kept (var ∷ ds) st1 f (ix + 1) hyps o.1 h1))
      ]
    ]
process_hyps-Kept ds st f ix (essential addr expr ∷ hyps) {st'} o h =
    elim (>>=-eq-ok (process_hyp st f ix (essential addr expr)) _ h) [
      | bound st1 first h1 ↦ elim (process_hyp-essential st f ix addr expr first) [
        | essential_step slot bytes top same there equal e ↦
            subst (λ s. Kept ds s st') e (process_hyps-Kept ds st1 f (ix + 1) hyps o.1 h1)
      ]
    ]

fragments_bytes-agree :
    (pool : List ℕ) (v w : ℕ → List ℕ) (parts : List ExprFragment)
    → All (λ part. v part.var ≡ w part.var) parts
    → fragments_bytes pool v parts ≡ fragments_bytes pool w parts
unfolding fragments_bytes
fragments_bytes-agree pool v w [] a = refl
fragments_bytes-agree pool v w (part ∷ parts) a =
    ground (arith, fragments_bytes-agree pool v w parts a.1, a.0)

-- An expression depends on its own variables alone.
pub expr_bytes-agree :
    (pool : List ℕ) (v w : ℕ → List ℕ) (expr : VerifyExpr)
    → All (λ part. v part.var ≡ w part.var) expr.tail
    → expr_bytes pool v expr ≡ expr_bytes pool w expr
unfolding expr_bytes
expr_bytes-agree pool v w expr a = ground (arith, fragments_bytes-agree pool v w expr.tail a)

pub value_of-agree :
    (buf : List ℕ) (info info' : Substitution) (var : ℕ)
    → get_elem? info' var ≡ get_elem? info var
    → value_of buf info var ≡ value_of buf info' var
unfolding value_of
value_of-agree buf info info' var e = ground (arith, e)

-- A numbering agrees with the numbers given so far.
abbrev pub Extends : (ℕ → ℕ) → List (ℕ × ℕ) → Type 0
Extends number m = (a n : ℕ) → Map.lookup nat_eq a m ≡ some n → number a ≡ n

module _ (o : Oracle) (cur : Frame) where
  -- The entry's bytes stand in the buffer and are derivable, however later variables are numbered.
  pub record Holds (buf : List ℕ) (m : List (ℕ × ℕ)) (vars : Bitset) (code : ℕ) (expr : Range)
      : Type 0 where
    pub bytes : List ℕ
    pub there : slice buf expr.start expr.end ≡ some bytes
    pub words : IsBitset vars
    pub derives : (number : ℕ → ℕ) → Extends number m → Derives o cur number code bytes vars

  abbrev pub SlotHolds : List ℕ → List (ℕ × ℕ) → StackSlot → Type 0
  SlotHolds buf m slot = Holds buf m slot.vars slot.code slot.expr

  pub record Matched (m : List (ℕ × ℕ)) (ds : List ℕ) (f : Frame) (hyps : List Hyp) (buf : List ℕ)
      (info : Substitution) : Type 0 where
    pub assigned : (var : ℕ) → contains (defined ds hyps) var ≡ true → IsAssigned buf info var
    pub derives :
        (number : ℕ → ℕ)
        → Extends number m
        → DerivesAll o cur number f (value_of buf info) (vars_of info) hyps

  abbrev pub AssignedIn : List ℕ → List ℕ → Substitution → Type 0
  AssignedIn ds buf info = (var : ℕ) → contains ds var ≡ true → IsAssigned buf info var

  assigned_next :
      (ds buf : List ℕ) (info : Substitution) (var : ℕ) (range : Range) (vars : Bitset)
      (bytes : List ℕ)
      → AssignedIn ds buf info
      → var < length info
      → slice buf range.start range.end ≡ some bytes
      → IsBitset vars
      → AssignedIn (var ∷ ds) buf (set info var (range, vars))
  assigned_next ds buf info var range vars bytes old inside there words v c =
      elim (Bool-cases (v == var)) [
        | inl same ↦ record {
          range = range;
          vars = vars;
          bytes = bytes;
          entry =
              subst (λ w. get_elem? (set info var (range, vars)) w ≡ some (range, vars))
                (sym ((==_iff v var).0 same)) (get_elem?-set_self info var (range, vars) inside);
          there = there;
          words = words;
        }
        | inr other ↦
            let kept = old v (ground (arith, c, other)) in
            let apart : var ≢ v = λ e. ground (arith, e, other) in
            record {
              range = kept.range;
              vars = kept.vars;
              bytes = kept.bytes;
              entry = get_elem?-set_ne info (range, vars) apart ∙ kept.entry;
              there = kept.there;
              words = kept.words;
            }
      ]

  pub assigned_all :
      (ds buf : List ℕ) (info : Substitution) (parts : List ExprFragment)
      → AssignedIn ds buf info
      → VarsIn ds parts
      → AllAssigned buf info parts
  assigned_all ds buf info [] a v = tt
  assigned_all ds buf info (part ∷ parts) a v =
      (a part.var v.0, assigned_all ds buf info parts a v.1)

  essential_value :
      (ds buf : List ℕ) (info info' : Substitution) (f : Frame) (expr : VerifyExpr) (bytes : List ℕ)
      → AssignedIn ds buf info
      → VarsIn ds expr.tail
      → ((var : ℕ) → contains ds var ≡ true → get_elem? info' var ≡ get_elem? info var)
      → do_substitute_eq bytes f expr info buf ≡ ok true
      → expr_bytes f.const_pool (value_of buf info') expr ≡ some bytes
  essential_value ds buf info info' f expr bytes a v keep equal =
      sym (
        expr_bytes-agree f.const_pool (value_of buf info) (value_of buf info') expr
          (same_values expr.tail v))
      ∙ do_substitute_eq_sound bytes f expr info buf (assigned_all ds buf info expr.tail a v) equal
    where
      same_values :
          (parts : List ExprFragment)
          → VarsIn ds parts
          → All (λ part. value_of buf info part.var ≡ value_of buf info' part.var) parts
      same_values [] v = tt
      same_values (part ∷ parts) v =
          (value_of-agree buf info info' part.var (keep part.var v.0), same_values parts v.1)

  float_derives :
      (m : List (ℕ × ℕ)) (buf : List ℕ) (info : Substitution) (var code : ℕ) (slot : StackSlot)
      → (holds : SlotHolds buf m slot) → slot.code ≡ code
      → get_elem? info var ≡ some (slot.expr, slot.vars)
      → (number : ℕ → ℕ) → Extends number m
      → Derives o cur number code (value_of buf info var) (vars_of info var)
  unfolding value_of vars_of
  float_derives m buf info var code slot holds same entry number ext =
      let bytes : holds.bytes ≡ value_of buf info var = ground (arith, entry, holds.there) in
      let vars : slot.vars ≡ vars_of info var = ground (arith, entry) in
      rw (← same, ← bytes, ← vars) (holds.derives number ext)

  essential_derives :
      (m : List (ℕ × ℕ)) (buf : List ℕ) (slot : StackSlot) (expr : VerifyExpr) (bytes : List ℕ)
      → (holds : SlotHolds buf m slot) → slot.code ≡ expr.typecode
      → slice buf slot.expr.start slot.expr.end ≡ some bytes
      → (number : ℕ → ℕ) → Extends number m
      → Derives o cur number expr.typecode bytes slot.vars
  essential_derives m buf slot expr bytes holds same there number ext =
      let equal : holds.bytes ≡ bytes = cc (holds.there, there) in
      rw (← same, ← equal) (holds.derives number ext)

  -- The hypotheses that `process_hyps` has gone through are derivable under its substitution.
  pub process_hyps_sound :
      (m : List (ℕ × ℕ)) (ds : List ℕ) (st : VerifyState) (f : Frame) (ix : ℕ) (hyps : List Hyp)
      (st' : VerifyState)
      → IsOrdered ds hyps
      → All (SlotHolds st.stack_buffer m) st.stack
      → AssignedIn ds st.stack_buffer st.subst_info
      → process_hyps st f ix hyps ≡ ok st'
      → Matched m ds f hyps st.stack_buffer st'.subst_info
  unfolding process_hyps
  process_hyps_sound m ds st f ix [] st' w s a h = record {
    assigned = let e : st ≡ st' = cc in subst (λ t. AssignedIn ds st.stack_buffer t.subst_info) e a;
    derives = λ number ext. none_left;
  }
  process_hyps_sound m ds st f ix (floating addr var code ∷ hyps) st' w s a h =
      elim (>>=-eq-ok (process_hyp st f ix (floating addr var code)) _ h) [
        | bound st1 first h1 ↦ elim (process_hyp-floating st f ix addr var code first) [
          | float_step slot top same inside e ↦
              let slot_holds = All-get_elem? (SlotHolds st.stack_buffer m) st.stack ix s top in
              let st2 : VerifyState = record st {
                subst_info = set st.subst_info var (slot.expr, slot.vars);
              } in
              let h2 : process_hyps st2 f (ix + 1) hyps ≡ ok st' =
                subst (λ t. process_hyps t f (ix + 1) hyps ≡ ok st') e h1 in
              let rest =
                process_hyps_sound m (var ∷ ds) st2 f (ix + 1) hyps st' w.1 s
                  (assigned_next ds st.stack_buffer st.subst_info var slot.expr slot.vars
                    slot_holds.bytes a inside slot_holds.there slot_holds.words)
                  h2 in
              let entry =
                (process_hyps-Kept (var ∷ ds) st2 f (ix + 1) hyps w.1 h2).set_before var
                  (ground arith)
                ∙ get_elem?-set_self st.subst_info var (slot.expr, slot.vars) inside in
              record {
                assigned = rest.assigned;
                derives = λ number ext.
                    float_next addr var code
                      (float_derives m st.stack_buffer st'.subst_info var code slot slot_holds same
                        entry number ext)
                      (rest.derives number ext);
              }
        ]
      ]
  process_hyps_sound m ds st f ix (essential addr expr ∷ hyps) st' w s a h =
      elim (>>=-eq-ok (process_hyp st f ix (essential addr expr)) _ h) [
        | bound st1 first h1 ↦ elim (process_hyp-essential st f ix addr expr first) [
          | essential_step slot bytes top same there equal e ↦
              let slot_holds = All-get_elem? (SlotHolds st.stack_buffer m) st.stack ix s top in
              let h2 : process_hyps st f (ix + 1) hyps ≡ ok st' =
                subst (λ t. process_hyps t f (ix + 1) hyps ≡ ok st') e h1 in
              let rest = process_hyps_sound m ds st f (ix + 1) hyps st' w.1 s a h2 in
              let keep = (process_hyps-Kept ds st f (ix + 1) hyps w.1 h2).set_before in
              record {
                assigned = rest.assigned;
                derives = λ number ext.
                    essential_next addr expr bytes slot.vars
                      (essential_value ds st.stack_buffer st.subst_info st'.subst_info f expr bytes
                        a w.0 keep equal)
                      (essential_derives m st.stack_buffer slot expr bytes slot_holds same there
                        number ext)
                      (rest.derives number ext);
              }
        ]
      ]
