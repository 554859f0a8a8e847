-- ===== src/Core/Audit/Chain/Tamper.antt =====
-- Which changes of a stored table VerifyAuditChain notices, and which it does not.
use Prim.Native.String
use mathlib.Core.List.{reverse, reverse-cons, reverse-append, append_assoc}
use text.Mathlib.TextLemmas.{append_assoc as string_assoc}
use openlocalcrm.Base.{
  ◌⊎◌, ℕ, ◌≡◌, ◌≢◌, ap, sym, ◌∙◌, String, true, false, some, List, [], ◌∷◌, ◌++◌, string_comparable,
  length, length-append, length-reverse, arith,
}
use openlocalcrm.Db.Models.{Uuid, AuditLog}
use openlocalcrm.Core.Audit.Chain.{
  Encoders, genesis_hash, join_bars, uuid_or_empty, text_or_empty, is_set, compute_audit_hash,
  latest_audit_log_hash, get_latest_hash, computed_hash, expects, check_row, verified,
  verify_audit_chain,
}
use openlocalcrm.Core.Audit.Chain.Verified.{
  scan, verify_from-scan, scan-verify_from, scan-append, scan-split, scan-one, scan-latest,
}

length-around :
    (newer older : List AuditLog) (l : AuditLog)
    → length (reverse older ++ (l ∷ reverse newer)) ≡ length (newer ++ l ∷ older)
length-around newer older l = omega (
  arith,
  length-append (reverse older) (l ∷ reverse newer),
  length-append newer (l ∷ older),
  length-reverse older,
  length-reverse newer,
)

module _ (enc : Encoders) where
  reverse-around :
      (newer older : List AuditLog) (l : AuditLog)
      → reverse (newer ++ l ∷ older) ≡ reverse older ++ (l ∷ reverse newer)
  reverse-around newer older l =
      reverse-append newer (l ∷ older)
      ∙ rw (reverse-cons l older) (append_assoc (reverse older) (l ∷ []) (reverse newer))

  -- The row of a table that verifies is passed, from the hash expected before it.
  scan-around :
      (n : ℕ) (newer older : List AuditLog) (l : AuditLog)
      → verify_audit_chain enc (newer ++ l ∷ older) ≡ verified n
      → (m : String) × (e : String) × (last : String) × (scan enc genesis_hash (reverse older)
          ≡ some m)
        × (check_row enc m l ≡ expects e)
        × (scan enc e (reverse newer) ≡ some last)
        × (n ≡ length (newer ++ l ∷ older))
  unfolding verify_audit_chain
  scan-around n newer older l h =
      let (found, count) =
        verify_from-scan enc genesis_hash 0 n (reverse older ++ (l ∷ reverse newer))
          (rw (reverse-around newer older l) at h) in
      let (m, before, rest) =
        scan-split enc genesis_hash found.0 (reverse older) (l ∷ reverse newer) found.1 in
      let (e, one, after) = scan-split enc m found.0 (l ∷ []) (reverse newer) rest in
      (
        m,
        e,
        found.0,
        before,
        (scan-one enc m e l).0 one,
        after,
        omega (arith, count, length-around newer older l),
      )

  around-verifies :
      (newer older : List AuditLog) (l : AuditLog) (m e last : String)
      → scan enc genesis_hash (reverse older) ≡ some m
      → check_row enc m l ≡ expects e
      → scan enc e (reverse newer) ≡ some last
      → verify_audit_chain enc (newer ++ l ∷ older) ≡ verified (length (newer ++ l ∷ older))
  unfolding verify_audit_chain
  around-verifies newer older l m e last before one after =
      let whole : scan enc genesis_hash (reverse older ++ (l ∷ reverse newer)) ≡ some last =
        scan-append enc genesis_hash m (reverse older) (l ∷ reverse newer) before
        ∙ scan-append enc m e (l ∷ []) (reverse newer) ((scan-one enc m e l).1 one)
        ∙ after in
      rw (reverse-around newer older l) (
        scan-verify_from enc genesis_hash last 0 (reverse older ++ (l ∷ reverse newer)) whole
        ∙ ap verified (omega (arith, length-around newer older l)))

  row_expects :
      (m e : String) (l : AuditLog)
      → is_set l.prev_hash ≡ true
      → check_row enc m l ≡ expects e
      → (l.prev_hash ≡ some m) × (l.hash ≡ some (computed_hash enc l)) × (e ≡ computed_hash enc l)
  unfolding check_row
  row_expects m e l p h = ground (
    arith,
    string_comparable.same_iff (text_or_empty l.prev_hash) m,
    string_comparable.same_iff (text_or_empty l.hash) (computed_hash enc l),
  )

  legacy_expects :
      (m e : String) (l l' : AuditLog)
      → is_set l.hash ≡ true
      → is_set l'.prev_hash ≡ false
      → l'.hash ≡ l.hash
      → check_row enc m l ≡ expects e
      → check_row enc m l' ≡ expects e
  unfolding check_row
  legacy_expects m e l l' s p h c = ground arith

module _ (enc : Encoders) (digest_ne : (s : String) → enc.digest s ≢ "") where
  -- If SHA-256 never gives the empty text, then in a table that verifies every row with a previous
  -- hash carries the hash of its own fields, and its previous hash is that of the newest row below
  -- it that has one, or the genesis hash.
  pub verified_row_links :
      (n : ℕ) (newer older : List AuditLog) (l : AuditLog)
      → is_set l.prev_hash ≡ true
      → verify_audit_chain enc (newer ++ l ∷ older) ≡ verified n
      → (l.hash ≡ some (computed_hash enc l))
        × (l.prev_hash ≡ some (get_latest_hash enc older))
        × (n ≡ length (newer ++ l ∷ older))
  verified_row_links n newer older l p h =
      let (m, e, last, before, one, after, count) = scan-around enc n newer older l h in
      let (prev, own, _) = row_expects enc m e l p one in
      (own, prev ∙ ap some (sym (scan-latest enc digest_ne m older before)), count)

  -- Under the same condition, if a table verifies with a row and without it, and the next row has a
  -- previous hash, then the row has no hash of its own or repeats the newest hash below it.
  pub removed_row_repeats :
      (n k : ℕ) (newer older : List AuditLog) (next l : AuditLog)
      → is_set next.prev_hash ≡ true
      → verify_audit_chain enc (newer ++ next ∷ l ∷ older) ≡ verified n
      → verify_audit_chain enc (newer ++ next ∷ older) ≡ verified k
      → (is_set l.hash ≡ false) ⊎ (l.hash ≡ some (get_latest_hash enc older))
  unfolding get_latest_hash latest_audit_log_hash
  removed_row_repeats n k newer older next l p h h' =
      let (_, prev, _) = verified_row_links n newer (l ∷ older) next p h in
      let (_, prev', _) = verified_row_links k newer older next p h' in ground (arith, prev, prev')

  -- Under the same condition, any row of a table that verifies and that has a hash may be replaced
  -- by any row with that hash and no previous hash, and the table still verifies.
  pub unlinked_row_passes :
      (n : ℕ) (newer older : List AuditLog) (l forged : AuditLog)
      → is_set l.hash ≡ true
      → is_set forged.prev_hash ≡ false
      → forged.hash ≡ l.hash
      → verify_audit_chain enc (newer ++ l ∷ older) ≡ verified n
      → verify_audit_chain enc (newer ++ forged ∷ older) ≡ verified n
  unlinked_row_passes n newer older l forged s p same h =
      let (m, e, last, before, one, after, count) = scan-around enc n newer older l h in
      around-verifies enc newer older forged m e last before
        (legacy_expects enc m e l forged s p same one) after
      ∙ ap verified (
          omega
            (arith, count, length-append newer (l ∷ older), length-append newer (forged ∷ older)))

bar_moves :
    (ip tail ua : String)
    → String.◌++◌ (String.◌++◌ ip (String.◌++◌ "|" tail)) (String.◌++◌ "|" ua)
      ≡ String.◌++◌ ip (String.◌++◌ "|" (String.◌++◌ tail (String.◌++◌ "|" ua)))
bar_moves ip tail ua =
    string_assoc ip (String.◌++◌ "|" tail) (String.◌++◌ "|" ua)
    ∙ ap (String.◌++◌ ip) (string_assoc "|" tail (String.◌++◌ "|" ua))

-- The hash does not tell where a field ends: what stands behind a bar in the address may as well
-- stand at the head of the user agent.
pub hash-ignores_bounds :
    (enc : Encoders) (prev : String) (user entity : Uuid)
    (entity_type action changes olds news ip tail ua : String)
    → compute_audit_hash enc prev user entity_type entity action changes olds news
        (String.◌++◌ ip (String.◌++◌ "|" tail))
        ua
      ≡ compute_audit_hash enc prev user entity_type entity action changes olds news ip
          (String.◌++◌ tail (String.◌++◌ "|" ua))
unfolding compute_audit_hash
hash-ignores_bounds enc prev user entity entity_type action changes olds news ip tail ua =
    ap
      (λ t. enc.digest (
        join_bars (
          prev
          ∷ uuid_or_empty enc user
          ∷ entity_type
          ∷ uuid_or_empty enc entity
          ∷ action
          ∷ changes
          ∷ olds
          ∷ news
          ∷ t
          ∷ [])))
      (bar_moves ip tail ua)
