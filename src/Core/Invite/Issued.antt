-- ===== src/Core/Invite/Issued.antt =====
-- An invite that `Issue` of internal/core/invite/service.go has issued.
use openlocalcrm.Base.{
  ℕ, ◌+◌, ◌≡◌, refl, sym, subst, inl, inr, String, true, false, not, ◌||◌, some, [], ◌∷◌, ltb, ◌==◌,
  length, Bool-cases, eq_refl, Option-cases, nat_comparable, string_comparable, option_comparable,
}
use openlocalcrm.Base.Dict.{lookup, insert, lookup-insert_self}
use openlocalcrm.Base.Text.{Text, text_comparable, to_lower, to_upper, trim_space}
use openlocalcrm.Base.Results.{Result, done}
use openlocalcrm.Db.Models.{Uuid, User, UserInvite}
use openlocalcrm.Db.Demo.Users.{find_email}
use openlocalcrm.Db.Demo.Invites.{
  Invites, Tables, CreateInvitedUserWithInviteParams, has_hash, is_active, invited_user, new_invite,
  create_invited_user_with_invite, get_user_invite_by_token_hash,
}
use openlocalcrm.Core.Invite.{
  InviteError, InviteView, min_password_length, accept, validate, resolve_active_invite,
}
use openlocalcrm.Core.Invite.Host.{build_invite_url}
use openlocalcrm.Core.Invite.Issue.{
  CreateUserInput, IssuedInvite, Draws, token_ttl, is_valid_role, valid_email, params, issue,
}
use openlocalcrm.Core.Invite.Agreement.{valid_is_accepted}

found_new :
    (h : String) (k : Uuid) (v : UserInvite) (rows : Invites)
    → has_hash h rows ≡ false
    → (v.token_hash == h) ≡ true
    → get_user_invite_by_token_hash h (insert k v rows) ≡ some v
unfolding has_hash get_user_invite_by_token_hash insert
found_new h k v [] fresh own = rw own refl
found_new h k v ((id, w) ∷ rows) fresh own = elim (Bool-cases (w.token_hash == h)) [
  | inl q ↦ absurd (cc (rw q at fresh))
  | inr q ↦ elim (Bool-cases (id == k)) [
    | inl r ↦ simp (r, own) refl
    | inr r ↦ simp (r, q) (found_new h k v rows (rw q at fresh) own)
  ]
]

module _ (hash_token : Text → String) (spell : Text → String) (query_escape : Text → Text)
    (t : Tables) (actor_id : Uuid) (req : CreateUserInput) (base_url : Text) (draws : Draws) where
  -- What an issue wrote and answered.
  pub record Written (issued : IssuedInvite) : Type 0 where
    pub raw : Text
    pub discarded : String
    pub fresh : has_hash (hash_token raw) t.user_invites ≡ false
    pub out :
        let arg = params hash_token spell actor_id req draws.now raw discarded in
        issue hash_token spell query_escape t actor_id req base_url draws ≡ (
          record {
            users =
                insert
                  (some draws.user_id)
                  (invited_user spell draws.now draws.user_id arg)
                  t.users;
            user_invites =
                insert
                  (some draws.new_id)
                  (new_invite draws.now draws.user_id draws.new_id arg)
                  t.user_invites;
          },
          done (record {
            invite = new_invite draws.now draws.user_id draws.new_id arg;
            raw_token = raw;
            url = build_invite_url query_escape base_url raw;
            expires_at = draws.now + token_ttl;
          }),
        )

  pub issue-Written :
      (issued : IssuedInvite)
      → (issue hash_token spell query_escape t actor_id req base_url draws).1 ≡ done issued
      → Written issued
  unfolding issue create_invited_user_with_invite
  issue-Written issued h =
      let email = to_lower (trim_space req.email) in
      elim (Bool-cases (
        email == []
        || trim_space req.first_name == []
        || trim_space req.last_name == []
        || not (valid_email email))) [
          | inl q ↦ absurd (cc (simp (issue, q) at h))
          | inr q ↦ elim (Bool-cases (is_valid_role (to_upper (trim_space req.role)))) [
            | inr r ↦ absurd (cc (simp (issue, q, r) at h))
            | inl r ↦ elim (Option-cases draws.raw_token) [
              | inl u ↦ absurd (cc (simp (issue, q, r, u) at h))
              | inr (raw, u) ↦ elim (Option-cases draws.discarded) [
                | inl v ↦ absurd (cc (simp (issue, q, r, u, v) at h))
                | inr (discarded, v) ↦ elim (Option-cases (find_email t.users email)) [
                  | inr (other, x) ↦
                      absurd
                        (cc (simp (issue, q, r, u, v, create_invited_user_with_invite, x) at h))
                  | inl x ↦ elim (Bool-cases (has_hash (hash_token raw) t.user_invites)) [
                    | inl y ↦
                        absurd (
                          cc (simp (issue, q, r, u, v, create_invited_user_with_invite, x, y) at h))
                    | inr y ↦ record {
                      raw = raw;
                      discarded = discarded;
                      fresh = y;
                      out = simp (issue, q, r, u, v, create_invited_user_with_invite, x, y) refl;
                    }
                  ]
                ]
              ]
            ]
          ]
        ]

module _ (hash_token : Text → String) (hash_password : Text → String) (spell : Text → String)
    (query_escape : Text → Text) where
  -- The invite of an insertion validates until its time is over.
  inserted_validates :
      (t : Tables) (now user_id new_id later end : ℕ) (raw : Text)
      (arg : CreateInvitedUserWithInviteParams)
      → has_hash arg.token_hash t.user_invites ≡ false
      → arg.token_hash ≡ hash_token raw
      → arg.expires_at ≡ some end
      → (trim_space raw == []) ≡ false
      → ltb later end ≡ true
      → validate hash_token hash_password
          (record {
            users = insert (some user_id) (invited_user spell now user_id arg) t.users;
            user_invites = insert (some new_id) (new_invite now user_id new_id arg) t.user_invites;
          })
          later
          raw
        ≡ done (record {
          email = spell arg.email;
          first_name = arg.first_name;
          last_name = arg.last_name;
          expires_at = arg.expires_at;
        })
  unfolding validate resolve_active_invite
  inserted_validates t now user_id new_id later end raw arg fresh own expiry full early =
      let invite = new_invite now user_id new_id arg in
      let hashed : (invite.token_hash == hash_token raw) ≡ true =
        rw own (eq_refl (hash_token raw)) in
      let unused : has_hash (hash_token raw) t.user_invites ≡ false = rw (← own) fresh in
      let found = found_new (hash_token raw) (some new_id) invite t.user_invites unused hashed in
      let open_now : is_active later invite ≡ true =
        unfold is_active in simp (expiry, early) refl in
      let known = lookup-insert_self (some user_id) (invited_user spell now user_id arg) t.users in
      simp (validate, resolve_active_invite, full, found, open_now, known) refl

  issued_validates :
      (t : Tables) (actor_id : Uuid) (req : CreateUserInput) (base_url : Text) (draws : Draws)
      (issued : IssuedInvite) (later : ℕ)
      → (issue hash_token spell query_escape t actor_id req base_url draws).1 ≡ done issued
      → (trim_space issued.raw_token == []) ≡ false
      → ltb later issued.expires_at ≡ true
      → validate hash_token hash_password
          (issue hash_token spell query_escape t actor_id req base_url draws).0
          later
          issued.raw_token
        ≡ done (record {
          email = spell (to_lower (trim_space req.email));
          first_name = spell (trim_space req.first_name);
          last_name = spell (trim_space req.last_name);
          expires_at = some (draws.now + token_ttl);
        })
  issued_validates t actor_id req base_url draws issued later h full early =
      let w = issue-Written hash_token spell query_escape t actor_id req base_url draws issued h in
      let arg = params hash_token spell actor_id req draws.now w.raw w.discarded in
      let answered = rw w.out at h in
      let raw : w.raw ≡ issued.raw_token = cc answered in
      let expiry : draws.now + token_ttl ≡ issued.expires_at = cc answered in
      let before : ltb later (draws.now + token_ttl) ≡ true = rw expiry early in
      let blank : (trim_space w.raw == []) ≡ false = rw raw full in
      let shown : Result InviteError InviteView = done (record {
        email = spell (to_lower (trim_space req.email));
        first_name = spell (trim_space req.first_name);
        last_name = spell (trim_space req.last_name);
        expires_at = some (draws.now + token_ttl);
      }) in
      let given =
        inserted_validates t draws.now draws.user_id draws.new_id later (draws.now + token_ttl)
          w.raw arg w.fresh refl refl blank before in
      subst
        (λ r.
          validate hash_token hash_password
            (issue hash_token spell query_escape t actor_id req base_url draws).0 later r
          ≡ shown)
        raw
        (subst (λ out. validate hash_token hash_password out.0 later w.raw ≡ shown) (sym w.out)
          given)

  -- An invite that was issued is good until it expires: for a later time before that, and a password of
  -- at least 8 characters, its raw token is accepted over the tables that the issue left, and the
  -- user with the address of the request becomes ACTIVE with that password. The raw token is not blank.
  pub issued_is_accepted :
      (t : Tables) (actor_id : Uuid) (req : CreateUserInput) (base_url password : Text)
      (draws : Draws) (issued : IssuedInvite) (later : ℕ)
      → (issue hash_token spell query_escape t actor_id req base_url draws).1 ≡ done issued
      → (trim_space issued.raw_token == []) ≡ false
      → ltb later issued.expires_at ≡ true
      → ltb (length password) min_password_length ≡ false
      → let t' = (issue hash_token spell query_escape t actor_id req base_url draws).0 in
        let after = accept hash_token hash_password t' later issued.raw_token password in
        (user : User) × (after.1 ≡ done user)
        × (user.email ≡ spell (to_lower (trim_space req.email)))
        × (user.status ≡ "ACTIVE")
        × (user.password_hash ≡ hash_password password)
        × ((id : Uuid) × (lookup id after.0.users ≡ some user))
  issued_is_accepted t actor_id req base_url password draws issued later h full early long =
      valid_is_accepted hash_token hash_password
        (issue hash_token spell query_escape t actor_id req base_url draws).0 later issued.raw_token
        password _ (issued_validates t actor_id req base_url draws issued later h full early) long
