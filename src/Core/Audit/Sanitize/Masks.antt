-- ===== src/Core/Audit/Sanitize/Masks.antt =====
-- The masks of a telephone number and a mail address of internal/core/audit/service.go.
use openlocalcrm.Base.{
  ℕ, zero, suc, ◌-◌, ◌≤◌, ◌≡◌, refl, Bool, true, false, Option, none, some, [], ◌∷◌, ◌++◌, leb, eqb,
  ◌&&◌, ◌||◌, if◌then◌else◌, length, take, drop, arith, inl, inr, Option-cases,
}
use openlocalcrm.Base.Text.{Text, codes, text_eq}
use openlocalcrm.Core.Audit.Sanitize.{mask_phone, split_at, mask_local, mask_mail}

-- A text that shows four bytes of a number at most: `***`, or two bytes, ` *** ` and two bytes.
abbrev pub phone_masked : Option Text → Bool
phone_masked none = false
phone_masked (some s) =
    text_eq s (codes "***") || (eqb (length s) 9 && text_eq (take 5 (drop 2 s)) (codes " *** "))

-- A local part that shows one byte at most: `*`, or one byte and `***`.
abbrev pub local_masked : Text → Bool
local_masked local =
    text_eq local (codes "*") || (eqb (length local) 4 && text_eq (drop 1 local) (codes "***"))

-- A text that shows one byte of a local part at most: `***`, or an address with a masked local part.
abbrev pub mail_masked : Option Text → Bool
mail_masked none = false
mail_masked (some s) = elim (split_at s) [
  | none ↦ text_eq s (codes "***")
  | some (local, domain) ↦ local_masked local
]

length-take-le : (n : ℕ) (s : Text) → length (take n s) ≤ n
length-take-le zero s = omega arith
length-take-le (suc n) [] = omega arith
length-take-le (suc n) (c ∷ s) = omega (arith, length-take-le n s)

length-drop : (n : ℕ) (s : Text) → length (drop n s) ≡ length s - n
length-drop zero s = omega arith
length-drop (suc n) [] = omega arith
length-drop (suc n) (c ∷ s) = omega (arith, length-drop n s)

mask_phone_tail :
    (a b : ℕ) (u : Text) → length u ≡ 2 → phone_masked (some (a ∷ b ∷ (codes " *** " ++ u))) ≡ true
mask_phone_tail a b [] h = absurd (omega arith)
mask_phone_tail a b (y ∷ []) h = absurd (omega arith)
mask_phone_tail a b (y ∷ z ∷ []) h = ground arith
mask_phone_tail a b (x ∷ y ∷ z ∷ u) h = absurd (omega arith)

mask_phone_long :
    (a b c d : ℕ) (s : Text)
    → mask_phone (some (a ∷ b ∷ c ∷ d ∷ s))
      ≡ a ∷ b ∷ (codes " *** " ++ drop (length (a ∷ b ∷ c ∷ d ∷ s) - 2) (a ∷ b ∷ c ∷ d ∷ s))
unfolding mask_phone
mask_phone_long a b c d s = ground arith

pub mask_phone_short : (o : Option Text) → phone_masked (some (mask_phone o)) ≡ true
mask_phone_short none = unfold mask_phone in refl
mask_phone_short (some []) = unfold mask_phone in refl
mask_phone_short (some (a ∷ [])) = unfold mask_phone in refl
mask_phone_short (some (a ∷ b ∷ [])) = unfold mask_phone in refl
mask_phone_short (some (a ∷ b ∷ c ∷ [])) = unfold mask_phone in refl
mask_phone_short (some (a ∷ b ∷ c ∷ d ∷ s)) = rw (mask_phone_long a b c d s) (
    mask_phone_tail a b _
      (omega (arith, length-drop (length (a ∷ b ∷ c ∷ d ∷ s) - 2) (a ∷ b ∷ c ∷ d ∷ s))))

-- A mask masks itself.
mask_phone_fixed :
    (a b : ℕ) (u : Text)
    → length u ≡ 2
    → mask_phone (some (a ∷ b ∷ (codes " *** " ++ u))) ≡ a ∷ b ∷ (codes " *** " ++ u)
unfolding mask_phone
mask_phone_fixed a b [] h = absurd (omega arith)
mask_phone_fixed a b (y ∷ []) h = absurd (omega arith)
mask_phone_fixed a b (y ∷ z ∷ []) h = refl
mask_phone_fixed a b (x ∷ y ∷ z ∷ u) h = absurd (omega arith)

pub mask_phone_idem : (o : Option Text) → mask_phone (some (mask_phone o)) ≡ mask_phone o
mask_phone_idem none = unfold mask_phone in refl
mask_phone_idem (some []) = unfold mask_phone in refl
mask_phone_idem (some (a ∷ [])) = unfold mask_phone in refl
mask_phone_idem (some (a ∷ b ∷ [])) = unfold mask_phone in refl
mask_phone_idem (some (a ∷ b ∷ c ∷ [])) = unfold mask_phone in refl
mask_phone_idem (some (a ∷ b ∷ c ∷ d ∷ s)) = rw (mask_phone_long a b c d s) (
    mask_phone_fixed a b _
      (omega (arith, length-drop (length (a ∷ b ∷ c ∷ d ∷ s) - 2) (a ∷ b ∷ c ∷ d ∷ s))))

shown : Text → Text
shown local = if leb (length local) 1 then codes "*" else take 1 local ++ codes "***"

split_at-mask_local :
    (s local domain : Text)
    → split_at s ≡ some (local, domain)
    → split_at (mask_local local domain) ≡ some (shown local, domain)
unfolding shown
split_at-mask_local [] local domain h = cc
split_at-mask_local (c ∷ s) [] domain h = refl
split_at-mask_local (c ∷ s) (a ∷ []) domain h = refl
split_at-mask_local (c ∷ s) (a ∷ b ∷ local) domain h = ground arith

mask_local-shown : (local domain : Text) → mask_local (shown local) domain ≡ mask_local local domain
unfolding shown
mask_local-shown [] domain = refl
mask_local-shown (a ∷ []) domain = refl
mask_local-shown (a ∷ b ∷ local) domain = ground arith

shown_masked : (local : Text) → local_masked (shown local) ≡ true
unfolding shown
shown_masked [] = refl
shown_masked (a ∷ []) = refl
shown_masked (a ∷ b ∷ local) = ground arith

mail_masked_address :
    (s local domain : Text)
    → split_at s ≡ some (local, domain)
    → local_masked local ≡ true
    → mail_masked (some s) ≡ true
mail_masked_address s local domain q masked = rw (q, mail_masked) masked

pub mask_mail_short : (o : Option Text) → mail_masked (some (mask_mail o)) ≡ true
unfolding mask_mail
mask_mail_short none = refl
mask_mail_short (some s) = elim (Option-cases (split_at s)) [
  | inl q ↦ rw (q, mask_mail) refl
  | inr ((local, domain), q) ↦
      rw (q, mask_mail)
        (mail_masked_address (mask_local local domain) (shown local) domain
          (split_at-mask_local s local domain q) (shown_masked local))
]

pub mask_mail_idem : (o : Option Text) → mask_mail (some (mask_mail o)) ≡ mask_mail o
unfolding mask_mail
mask_mail_idem none = refl
mask_mail_idem (some s) = elim (Option-cases (split_at s)) [
  | inl q ↦ rw (q, mask_mail) refl
  | inr ((local, domain), q) ↦
      rw (q, mask_mail)
        (ground (arith, split_at-mask_local s local domain q, mask_local-shown local domain))
]
