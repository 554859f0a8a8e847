-- ===== src/Core/Audit/Chain/Verified.antt =====
-- A table that verifies goes on verifying as rows are written.
use mathlib.Core.List.{reverse, reverse-cons}
use openlocalcrm.Base.{
  ◌⊎◌, ℕ, suc, ◌+◌, ◌≡◌, ◌≢◌, refl, ap, ◌∙◌, String, Option, none, some, List, [], ◌∷◌, ◌++◌, ◌↔◌,
  string_comparable, length, length-append, arith, inl, inr, eq_refl,
}
use openlocalcrm.Db.Models.{AuditLog}
use openlocalcrm.Core.Audit.Sanitize.{Json}
use openlocalcrm.Core.Audit.Diff.{DiffMap}
use openlocalcrm.Core.Audit.Chain.{
  Encoders, genesis_hash, text_or_empty, text_of, compute_audit_hash, latest_audit_log_hash,
  get_latest_hash, create_audit_log, Event, audit_row, log, log_diff, computed_hash, Check, expects,
  prev_differs, hash_differs, check_row, verified, verify_from, verify_audit_chain,
}

abbrev pub next_of : Check → Option String
next_of (expects next) = some next
next_of _ = none

next_cases : (c : Check) → (next_of c ≡ none) ⊎ ((next : String) × (c ≡ expects next))
next_cases (expects next) = inr (next, refl)
next_cases prev_differs = inl refl
next_cases hash_differs = inl refl

module _ (enc : Encoders) where
  -- The hash expected after the rows, if they verify.
  unfoldable pub scan : String → List AuditLog → Option String
  scan prev [] = some prev
  scan prev (l ∷ logs) = elim (next_of (check_row enc prev l)) [
    | none ↦ none
    | some next ↦ scan next logs
  ]

  pub verify_from-scan :
      (prev : String) (i n : ℕ) (logs : List AuditLog)
      → verify_from enc prev i logs ≡ verified n
      → ((e : String) × (scan prev logs ≡ some e)) × (n ≡ i + length logs)
  unfolding verify_from scan
  verify_from-scan prev i n [] h = ((prev, refl), ground arith)
  verify_from-scan prev i n (l ∷ logs) h = elim (next_cases (check_row enc prev l)) [
    | inl q ↦ absurd (ground (arith, q))
    | inr (next, q) ↦
        let (found, count) = verify_from-scan next (suc i) n logs (ground (arith, q)) in
        ((found.0, rw (q, scan) found.1), omega arith)
  ]

  pub scan-verify_from :
      (prev e : String) (i : ℕ) (logs : List AuditLog)
      → scan prev logs ≡ some e
      → verify_from enc prev i logs ≡ verified (i + length logs)
  unfolding verify_from scan
  scan-verify_from prev e i [] h = ground arith
  scan-verify_from prev e i (l ∷ logs) h = elim (next_cases (check_row enc prev l)) [
    | inl q ↦ absurd (ground (arith, q))
    | inr (next, q) ↦ ground (arith, q, scan-verify_from next e (suc i) logs)
  ]

  pub scan-append :
      (prev e : String) (xs ys : List AuditLog)
      → scan prev xs ≡ some e
      → scan prev (xs ++ ys) ≡ scan e ys
  unfolding scan
  scan-append prev e [] ys h = ground arith
  scan-append prev e (l ∷ xs) ys h = elim (next_cases (check_row enc prev l)) [
    | inl q ↦ absurd (ground (arith, q))
    | inr (next, q) ↦ ground (arith, q, scan-append next e xs ys)
  ]

  pub scan-split :
      (prev e : String) (xs ys : List AuditLog)
      → scan prev (xs ++ ys) ≡ some e
      → (m : String) × (scan prev xs ≡ some m) × (scan m ys ≡ some e)
  unfolding scan
  scan-split prev e [] ys h = (prev, refl, h)
  scan-split prev e (l ∷ xs) ys h = elim (next_cases (check_row enc prev l)) [
    | inl q ↦ absurd (ground (arith, q))
    | inr (next, q) ↦
        let (m, before, after) = scan-split next e xs ys (ground (arith, q)) in
        (m, rw (q, scan) before, after)
  ]

  pub scan-one :
      (prev e : String) (l : AuditLog)
      → (scan prev (l ∷ []) ≡ some e) ↔ (check_row enc prev l ≡ expects e)
  unfolding scan
  scan-one prev e l = elim (next_cases (check_row enc prev l)) [
    | inl q ↦ (λ h. absurd (ground (arith, q)), λ h. absurd (ground (arith, q)))
    | inr (next, q) ↦ (λ h. ground (arith, q), λ h. ground (arith, q))
  ]

text_or_empty-text_of : (s : String) → text_or_empty (text_of s) ≡ s
text_or_empty-text_of s = ground (arith, string_comparable.same_iff s "")

module _ (enc : Encoders) (digest_ne : (s : String) → enc.digest s ≢ "") where
  computed_hash-ne : (l : AuditLog) → computed_hash enc l ≢ ""
  unfolding computed_hash compute_audit_hash
  computed_hash-ne l = digest_ne _

  check_row-latest :
      (prev e : String) (l : AuditLog) (logs : List AuditLog)
      → get_latest_hash enc logs ≡ prev
      → check_row enc prev l ≡ expects e
      → get_latest_hash enc (l ∷ logs) ≡ e
  unfolding get_latest_hash latest_audit_log_hash check_row
  check_row-latest prev e l logs same h = ground (
    arith,
    same,
    computed_hash-ne l,
    string_comparable.same_iff (text_or_empty l.hash) (computed_hash enc l),
    string_comparable.same_iff (text_or_empty l.hash) "",
  )

  pub scan-latest :
      (e : String) (logs : List AuditLog)
      → scan enc genesis_hash (reverse logs) ≡ some e
      → get_latest_hash enc logs ≡ e
  scan-latest e [] h = unfold scan get_latest_hash latest_audit_log_hash in ground arith
  scan-latest e (l ∷ logs) h =
      let (m, before, after) =
        scan-split enc genesis_hash e (reverse logs) (l ∷ []) (rw (reverse-cons l logs) at h) in
      check_row-latest m e l logs (scan-latest m logs before) ((scan-one enc m e l).0 after)

  latest-ne : (logs : List AuditLog) → get_latest_hash enc logs ≢ ""
  unfolding get_latest_hash
  latest-ne logs = ground (
    arith,
    string_comparable.same_iff (text_or_empty (latest_audit_log_hash enc logs)) "",
    string_comparable.same_iff genesis_hash "",
  )

  computed-audit_row :
      (logs : List AuditLog) (ev : Event) (changes olds news : String)
      → (audit_row enc logs ev changes olds news).hash
        ≡ some (computed_hash enc (audit_row enc logs ev changes olds news))
  unfolding audit_row computed_hash
  computed-audit_row logs ev changes olds news =
      rw (text_or_empty-text_of ev.ip, text_or_empty-text_of ev.user_agent)

  row_fits :
      (prev : String) (l : AuditLog)
      → prev ≢ ""
      → l.prev_hash ≡ some prev
      → l.hash ≡ some (computed_hash enc l)
      → check_row enc prev l ≡ expects (computed_hash enc l)
  unfolding check_row
  row_fits prev l ne p h =
      ground
        (arith, string_comparable.same_iff prev "", eq_refl prev, eq_refl (computed_hash enc l))

  written_row_verifies :
      (n : ℕ) (logs : List AuditLog) (ev : Event) (changes olds news : String)
      → verify_audit_chain enc logs ≡ verified n
      → verify_audit_chain enc (audit_row enc logs ev changes olds news ∷ logs) ≡ verified (suc n)
  unfolding verify_audit_chain
  written_row_verifies n logs ev changes olds news h =
      let l = audit_row enc logs ev changes olds news in
      let (found, count) = verify_from-scan enc genesis_hash 0 n (reverse logs) h in
      let latest = scan-latest found.0 logs found.1 in
      let prev_is : l.prev_hash ≡ some (get_latest_hash enc logs) = unfold audit_row in refl in
      let fits =
        row_fits (get_latest_hash enc logs) l (latest-ne logs) prev_is
          (computed-audit_row logs ev changes olds news) in
      let whole : scan enc genesis_hash (reverse (l ∷ logs)) ≡ some (computed_hash enc l) =
        rw (reverse-cons l logs) (
          scan-append enc genesis_hash found.0 (reverse logs) (l ∷ []) found.1
          ∙ (scan-one enc found.0 (computed_hash enc l) l).1 (rw latest at fits)) in
      scan-verify_from enc genesis_hash (computed_hash enc l) 0 (reverse (l ∷ logs)) whole
      ∙ ap verified (
          omega
            (arith, count, ap length (reverse-cons l logs), length-append (reverse logs) (l ∷ [])))

  -- If SHA-256 never gives the empty text, then writing a row with Log keeps a table of `n` rows that
  -- verifies one of `n + 1` rows that verifies, and so does LogDiff.
  pub log-verifies :
      (n : ℕ) (logs : List AuditLog) (ev : Event) (changes : Option Json) (olds news : DiffMap)
      → verify_audit_chain enc logs ≡ verified n
      → (verify_audit_chain enc (log enc ev changes logs) ≡ verified (suc n))
        × (verify_audit_chain enc (log_diff enc ev olds news logs) ≡ verified (suc n))
  unfolding log log_diff create_audit_log
  log-verifies n logs ev changes olds news h =
      (written_row_verifies n logs ev _ _ _ h, written_row_verifies n logs ev _ _ _ h)
