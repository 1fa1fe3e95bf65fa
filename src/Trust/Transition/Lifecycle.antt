-- ===== src/Trust/Transition/Lifecycle.antt =====
-- tools/marketplace-core/src/trust-bundle.ts: `validateLifecycleTransition`.
use mandate_x.Base.{Bool, true, false, not, ◌||◌, eqb, ltb, leb, if◌then◌else◌, refuse_if, ◌>>=◌}
use mandate_x.Trust.{Lifecycle, Validity, Check, transition_invalid, lifecycle_beq}

-- The table `allowed`.
abbrev pub is_allowed : Lifecycle → Lifecycle → Bool
is_allowed Lifecycle.preactive Lifecycle.retired = false
is_allowed Lifecycle.preactive _ = true
is_allowed Lifecycle.active Lifecycle.active = true
is_allowed Lifecycle.active Lifecycle.retiring = true
is_allowed Lifecycle.active Lifecycle.revoked = true
is_allowed Lifecycle.retiring Lifecycle.retiring = true
is_allowed Lifecycle.retiring Lifecycle.retired = true
is_allowed Lifecycle.retiring Lifecycle.revoked = true
is_allowed Lifecycle.retired Lifecycle.retired = true
is_allowed Lifecycle.retired Lifecycle.revoked = true
is_allowed Lifecycle.revoked Lifecycle.revoked = true
is_allowed _ _ = false

unfoldable pub validate_lifecycle_transition : Validity → Validity → Check
validate_lifecycle_transition old next =
    refuse_if (not (eqb next.not_before old.not_before) || ltb old.not_after next.not_after)
      transition_invalid
    >>= λ _. refuse_if (not (is_allowed old.lifecycle next.lifecycle)) transition_invalid >>= λ _.
        (if lifecycle_beq next.lifecycle old.lifecycle
          then refuse_if (not (eqb next.lifecycle_changed_at old.lifecycle_changed_at))
              transition_invalid
          else refuse_if (leb next.lifecycle_changed_at old.lifecycle_changed_at)
              transition_invalid)
