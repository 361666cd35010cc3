-- ===== src/Ruleset/Checked.antt =====
-- internal/service/ruleset/check.go: which files the probe finds fine.
use subgen.Prelude.Int.{ℤ, pos, int_eq, int_eqb_iff}
use subgen.Prelude.{
  ◌≡◌, ◌≢◌, ◌↔◌, inl, inr, refl, sym, ap, subst, String, Bool, true, [], ◌∷◌, Option, ◌==◌,
  Bool-cases,
}
use subgen.Ruleset.Mirror.{Bytes, limited}
use subgen.Ruleset.Check.{
  fine, Probe, no_request, no_response, answered, cut, matches_format, probe_limit, check_bytes,
  check,
}

module _ (text_of : Bytes → Option String) (payload_of : Bytes → Option (Option Bool)) where
  -- A body that is not empty and whose first 32 MiB are of the format.
  abbrev pub Reads : String → Bytes → Type 0
  Reads format body =
      (body ≢ []) × (matches_format text_of payload_of (limited probe_limit body) format ≡ true)

  abbrev body_of : Probe → Bytes
  body_of (answered status body) = body
  body_of _ = []

  abbrev status_of : Probe → ℤ
  status_of (answered status body) = status
  status_of _ = pos 0

  -- A reply 200 with a body of the format.
  abbrev pub IsFine : Probe → String → Type 0
  IsFine probe format = (body : Bytes) × (probe ≡ answered (pos 200) body) × Reads format body

  check_bytes-fine :
      (format : String) (body : Bytes)
      → ((check_bytes text_of payload_of (pos 200) (limited probe_limit body) format).outcome
          ≡ fine)
        ↔ Reads format body
  unfolding limited
  check_bytes-fine format [] = ((λ e. cc), λ h. absurd (h.0 refl))
  check_bytes-fine format (b ∷ bs) =
      let read : Bytes = limited probe_limit (b ∷ bs) in
      elim (Bool-cases (matches_format text_of payload_of read format)) [
        | inl same ↦ rw same ((λ e. ((λ h. cc), refl)), λ h. refl)
        | inr other ↦ rw other ((λ e. cc), λ h. cc)
      ]

  -- The probe of a URL finds the file fine just when the answer is a 200 with a body that is not empty and
  -- whose first 32 MiB match the declared format.
  pub check-fine_iff :
      (probe : Probe) (format : String)
      → ((check text_of payload_of probe format).outcome ≡ fine) ↔ IsFine probe format
  unfolding check
  check-fine_iff (no_request e) format = ((λ h. cc), λ h. let (body, is, _) = h in cc)
  check-fine_iff (no_response e) format = ((λ h. cc), λ h. let (body, is, _) = h in cc)
  check-fine_iff (answered status body) format = elim (Bool-cases (status == pos 200)) [
    | inl good ↦
        let same : status ≡ pos 200 = (int_eqb_iff status (pos 200)).0 good in
        let iff = check_bytes-fine format body in
        rw same (
          (λ h. (body, refl, iff.0 h)),
          λ h. iff.1 (subst (Reads format) (sym (ap body_of h.1)) h.2),
        )
    | inr bad ↦
        rw bad
          ((λ h. cc), λ h. let yes_eq = (int_eqb_iff status (pos 200)).1 (ap status_of h.1) in cc)
  ]
  check-fine_iff (cut status e) format = elim (Bool-cases (status == pos 200)) [
    | inl good ↦ rw good ((λ h. cc), λ h. let (body, is, _) = h in cc)
    | inr bad ↦ rw bad ((λ h. cc), λ h. let (body, is, _) = h in cc)
  ]
