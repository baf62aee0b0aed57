-- ===== src/Verify/Tests.antt =====
-- src/verify.rs: concrete runs of the verifier.
use metamath_knife.Verify.Reordered.{process_reordered-ne-err}
use metamath_knife.Verify.Explicit.{process_reordered}
use metamath_knife.Base.{
  IsDistinct, zero, suc, none, some, ◌++◌, ◌+◌, [], ◌∷◌, ◌≡◌, ◌≢◌, refl, bytes_eq, mark_last, slice,
  position,
}
use metamath_knife.Verify.Prepare.{prepare_hypothesis, prepare_step, push_name}
use metamath_knife.Verify.Execute.{process_hyp, execute_step, check_dv, do_substitute_eq}
use metamath_knife.BitSet
use metamath_knife.BitSet.{set_bit, bitor_assign}
use metamath_knife.BitSet.Words.{new-IsBitset, set_bit-IsBitset}
use metamath_knife.Scopeck.{floating}
use metamath_knife.Verify.{hyp, assertion}
use metamath_knife.Verify.Prepare.{no_parse, StepParse}
use metamath_knife.Verify.Derivation.{expr_bytes}
use metamath_knife.Verify.Substitute.{value_of, do_substitute_eq_sound}
use metamath_knife.Verify.Soundness.{IsSound, execute_step-IsSound}
use metamath_knife.Verify.Soundness.Preparation.{prepare_hypothesis-IsSound}
use metamath_knife.Verify.Soundness.Labels.{prepare_step-IsTracked}
use metamath_knife.Verify.Soundness.Tracking.{IsTracked}
use metamath_knife.Verify.Numbering.{number_vars-IsNumbering}
use metamath_knife.Base.Map
use metamath_knife.Diag.{ok, err, step_float_wrong_type}
use metamath_knife.Verify.{VerifyState}
use metamath_knife.Verify.Run.{verify_proof, number_vars}
use metamath_knife.Verify.Example.{
  place, oracle, th, proof, frames_well_formed, names_exist, normal_proof, wn, wn_label, minus,
}
use metamath_knife.Verify.Soundness.Final.{Proved, compressed_sound, normal_sound}

accepted : verify_proof oracle th [] proof ≡ ok tt
unfolding verify_proof bytes_eq prepare_hypothesis mark_last prepare_step execute_step slice
    check_dv
accepted = refl

th-IsDistinct : IsDistinct th.var_list
th-IsDistinct zero zero a e f = refl
th-IsDistinct zero (suc zero) a e f = cc (f)
th-IsDistinct zero (suc (suc j)) a e f = cc (f)
th-IsDistinct (suc zero) j a e f = cc (e)
th-IsDistinct (suc (suc i)) j a e f = cc (e)

compressed_sound_example : Proved oracle th
unfolding bytes_eq
compressed_sound_example =
    compressed_sound oracle th frames_well_formed names_exist th-IsDistinct [] proof refl accepted

normal_accepted : verify_proof oracle th [] normal_proof ≡ ok tt
unfolding verify_proof bytes_eq prepare_step execute_step slice check_dv push_name mark_last
normal_accepted = refl

normal_sound_example : Proved oracle th
unfolding bytes_eq position
normal_sound_example =
    normal_sound oracle th frames_well_formed names_exist th-IsDistinct [] normal_proof refl
      (refl, (refl, (refl, tt))) normal_accepted

-- The variable `p` stands on the stack as itself.
abbrev one_variable : VerifyState
one_variable = record {
  prepared = [];
  stack = [];
  stack_buffer = [];
  subst_info = [];
  var2bit = (2, 0) ∷ [];
}

abbrev ready : VerifyState
ready = record one_variable {
  stack_buffer = (b'p' + 128) ∷ [];
  prepared = hyp (set_bit BitSet.new 0) 1 (record { start = 0; end = 1 }) ∷ [];
}

ready-IsSound : IsSound oracle th ready
unfolding prepare_hypothesis mark_last
ready-IsSound =
    prepare_hypothesis-IsSound oracle th names_exist one_variable ready 0 (floating (place 3) 0 1)
      refl (record { prepared = tt; stack = tt }) refl

abbrev with_wn : VerifyState
with_wn = record ready { prepared = ready.prepared ++ assertion wn ∷ [] }

abbrev with_wn_step : VerifyState × StepParse
with_wn_step = (with_wn, no_parse)

ready-IsTracked : IsTracked oracle th ready
unfolding number_vars Map.insert
ready-IsTracked = record {
  sound = ready-IsSound;
  numbers = number_vars-IsNumbering oracle th th-IsDistinct;
}

prepare_step-IsTracked_example : IsTracked oracle th with_wn
unfolding prepare_step bytes_eq prepare_hypothesis mark_last
prepare_step-IsTracked_example =
    prepare_step-IsTracked oracle th names_exist ready wn_label none {result = with_wn_step}
      ready-IsTracked refl

abbrev pushed : VerifyState
pushed = record with_wn {
  stack =
      record { vars = set_bit BitSet.new 0; code = 1; expr = record { start = 0; end = 1 } } ∷ [];
}

pushed-IsSound : IsSound oracle th pushed
unfolding prepare_step bytes_eq execute_step prepare_hypothesis mark_last
pushed-IsSound =
    execute_step-IsSound oracle th frames_well_formed with_wn pushed 0
      (IsTracked.sound (
        prepare_step-IsTracked oracle th names_exist ready wn_label none {result = with_wn_step}
          ready-IsTracked refl))
      refl

abbrev applied : VerifyState
applied = record pushed {
  subst_info = (record { start = 0; end = 1 }, set_bit BitSet.new 0) ∷ [];
  stack_buffer = (b'p' + 128) ∷ minus ∷ (b'p' + 128) ∷ [];
  stack =
      record { vars = set_bit BitSet.new 0; code = 1; expr = record { start = 1; end = 3 } } ∷ [];
}

execute_step-IsSound_example : IsSound oracle th applied
unfolding execute_step slice check_dv set_bit bitor_assign
execute_step-IsSound_example =
    execute_step-IsSound oracle th frames_well_formed pushed applied 1 pushed-IsSound refl

-- An entry with a typecode that the hypothesis does not have.
abbrev wrong_typecode : VerifyState
wrong_typecode = record pushed {
  stack =
      record { vars = set_bit BitSet.new 0; code = 7; expr = record { start = 0; end = 1 } } ∷ [];
}

in_order-wrong_typecode :
    process_hyp wrong_typecode wn 0 (floating (place 3) 0 1) ≡ err step_float_wrong_type
unfolding process_hyp
in_order-wrong_typecode = refl

reordered-wrong_typecode :
    process_reordered oracle wrong_typecode wn 0 (some 0 ∷ []) ≡ ok wrong_typecode
unfolding process_reordered process_hyp
reordered-wrong_typecode = refl

process_reordered-ne-err_example :
    process_reordered oracle wrong_typecode wn 0 (some 0 ∷ []) ≢ err step_float_wrong_type
process_reordered-ne-err_example =
    process_reordered-ne-err oracle wrong_typecode wn 0 (some 0 ∷ []) step_float_wrong_type

do_substitute_eq_sound_example :
    expr_bytes wn.const_pool (value_of applied.stack_buffer applied.subst_info) wn.target
    ≡ some (minus ∷ (b'p' + 128) ∷ [])
unfolding slice do_substitute_eq bytes_eq
do_substitute_eq_sound_example =
    do_substitute_eq_sound (minus ∷ (b'p' + 128) ∷ []) wn wn.target applied.subst_info
      applied.stack_buffer
      (
        record {
          range = record { start = 0; end = 1 };
          vars = set_bit BitSet.new 0;
          bytes = (b'p' + 128) ∷ [];
          entry = refl;
          there = refl;
          words = set_bit-IsBitset BitSet.new 0 new-IsBitset;
        },
        tt,
      )
      refl
