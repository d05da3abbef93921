-- ===== src/Deferred/Stages.antt =====
-- The comparison of two values of `BhrcDeferredReconnectStage` in src/core.hpp.
use revenant_fix.Prelude.{
  ℕ, ◌≡◌, ◌≢◌, refl, sym, ap, ◌∙◌, ==_iff, Bool, true, false, ◌&&◌, not, ◌==◌, arith, if◌then◌else◌,
}
use revenant_fix.Deferred.{Stage, stage_code, is_stage}

unfoldable stage_of : ℕ → Stage
stage_of n =
    if n == 0
    then Stage.idle
    else if n == 1
    then Stage.armed_reason4
    else if n == 2
    then Stage.cleanup_exited
    else if n == 3
    then Stage.master_join_requested
    else if n == 4
    then Stage.awaiting_native_b
    else if n == 5
    then Stage.authority_probe_transferred
    else Stage.failed

stage_of-code : (a : Stage) → stage_of (stage_code a) ≡ a
unfolding stage_of stage_code
stage_of-code Stage.idle = refl
stage_of-code Stage.armed_reason4 = refl
stage_of-code Stage.cleanup_exited = refl
stage_of-code Stage.master_join_requested = refl
stage_of-code Stage.awaiting_native_b = refl
stage_of-code Stage.authority_probe_transferred = refl
stage_of-code Stage.failed = refl

-- The comparison of two enumerators.
pub is_stage-eq : (a b : Stage) → is_stage a b ≡ true → a ≡ b
is_stage-eq a b h =
    sym (stage_of-code a)
    ∙ ap stage_of ((==_iff (stage_code a) (stage_code b)).0 h)
    ∙ stage_of-code b

pub is_stage-ne : (a b : Stage) → is_stage a b ≡ false → a ≢ b
is_stage-ne a b h e = absurd (ground (arith, h, ap stage_code e))

pub and-true : (a b : Bool) → (a && b) ≡ true → (a ≡ true) × (b ≡ true)
and-true a b h = ground arith

pub not-true : (a : Bool) → not a ≡ true → a ≡ false
not-true a h = ground arith
