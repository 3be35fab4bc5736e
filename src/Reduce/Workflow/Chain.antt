-- ===== src/Reduce/Workflow/Chain.antt =====
-- The hash chain of the attempts, as the manifest's validator follows it.
use tensorrt_upgrade_guard.Prelude.{
  ℕ, suc, ◌+◌, String, string_eq, option_eq, ◌↔◌, ◌≡◌, refl, sym, ◌∙◌, inl, inr, arith, true,
  Option, some, List, [], ◌∷◌, ◌++◌, length, ◌=?◌, ◌==◌, Bool-cases,
}
use tensorrt_upgrade_guard.Errors.{ok}
use tensorrt_upgrade_guard.Reduce.Workflow.Contracts.{
  AttemptBody, ReductionAttempt, validate_attempts,
}
use tensorrt_upgrade_guard.Reduce.Workflow.{last_hash}

module _ {F : Type 0} (hash : AttemptBody F → String) where
  -- An attempt that may follow at this place of the chain.
  pub record Follows (sequence : ℕ) (previous : Option String) (a : ReductionAttempt F)
      : Type 0 where
    pub in_sequence : a.body.sequence ≡ sequence
    pub linked : a.body.previous_attempt_sha256 ≡ previous
    pub hashed : a.attempt_sha256 ≡ hash a.body

  -- The attempts are numbered from `sequence`, and each names the hash of the one before.
  abbrev pub IsChain : ℕ → Option String → List (ReductionAttempt F) → Type 0
  IsChain sequence previous [] = Unit
  IsChain sequence previous (a ∷ attempts) =
      Follows sequence previous a × IsChain (suc sequence) (some a.attempt_sha256) attempts

  validate_attempts-cons :
      (sequence : ℕ) (previous : Option String) (a : ReductionAttempt F)
      (attempts : List (ReductionAttempt F))
      → Follows sequence previous a
      → validate_attempts hash sequence previous (a ∷ attempts)
        ≡ validate_attempts hash (suc sequence) (some a.attempt_sha256) attempts
  unfolding validate_attempts
  validate_attempts-cons sequence previous a attempts f =
      let numbered : (a.body.sequence == sequence) ≡ true = ground arith in
      let linked : (a.body.previous_attempt_sha256 =? previous) ≡ true =
        (option_eq.beq_iff a.body.previous_attempt_sha256 previous).1 f.linked in
      let hashed : (a.attempt_sha256 =? hash a.body) ≡ true =
        (string_eq.beq_iff a.attempt_sha256 (hash a.body)).1 f.hashed in
      rw (numbered, linked, hashed)

  Follows-of_valid :
      (sequence : ℕ) (previous : Option String) (a : ReductionAttempt F)
      (attempts : List (ReductionAttempt F))
      → validate_attempts hash sequence previous (a ∷ attempts) ≡ ok tt
      → Follows sequence previous a
  unfolding validate_attempts
  Follows-of_valid sequence previous a attempts h =
      elim (Bool-cases (a.body.sequence == sequence)) [
        | inr e ↦ cc (rw e at h)
        | inl numbered ↦ elim (Bool-cases (a.body.previous_attempt_sha256 =? previous)) [
          | inr e ↦ cc (rw (numbered, e) at h)
          | inl linked ↦ elim (Bool-cases (a.attempt_sha256 =? hash a.body)) [
            | inr e ↦ cc (rw (numbered, linked, e) at h)
            | inl hashed ↦ record {
              in_sequence = ground arith;
              linked = (option_eq.beq_iff a.body.previous_attempt_sha256 previous).0 linked;
              hashed = (string_eq.beq_iff a.attempt_sha256 (hash a.body)).0 hashed;
            }
          ]
        ]
      ]

  -- The loop of the manifest's validator accepts attempts exactly when they are numbered from the
  -- start, each has the hash of its body, and each names the hash of the one before.
  pub validate_attempts_iff :
      (attempts : List (ReductionAttempt F)) (sequence : ℕ) (previous : Option String)
      → (validate_attempts hash sequence previous attempts ≡ ok tt)
        ↔ IsChain sequence previous attempts
  unfolding validate_attempts
  validate_attempts_iff [] sequence previous = (λ h. tt, λ h. refl)
  validate_attempts_iff (a ∷ attempts) sequence previous =
      let rest = validate_attempts_iff attempts (suc sequence) (some a.attempt_sha256) in
      (
        λ h.
            let f = Follows-of_valid sequence previous a attempts h in
            (f, rest.0 (sym (validate_attempts-cons sequence previous a attempts f) ∙ h)),
        λ (f, chain). validate_attempts-cons sequence previous a attempts f ∙ rest.1 chain,
      )

  -- An attempt with the next number and the last hash extends the chain.
  pub IsChain-append :
      (attempts : List (ReductionAttempt F)) (sequence : ℕ) (previous : Option String)
      (a : ReductionAttempt F)
      → IsChain sequence previous attempts
      → Follows (length attempts + sequence) (last_hash previous attempts) a
      → IsChain sequence previous (attempts ++ a ∷ [])
  unfolding last_hash
  IsChain-append [] sequence previous a h f = (
    record { in_sequence = omega (arith, f.in_sequence); linked = f.linked; hashed = f.hashed },
    tt,
  )
  IsChain-append (b ∷ attempts) sequence previous a h f = (
    h.0,
    IsChain-append attempts (suc sequence) (some b.attempt_sha256) a h.1 (record {
      in_sequence = omega (arith, f.in_sequence);
      linked = f.linked;
      hashed = f.hashed;
    }),
  )
