-- ===== src/Api/Accounts/Logout.antt =====
-- internal/api/auth_handlers.go with internal/auth: what a logout takes away.
use uran_api.Prelude.{
  ℕ, suc, Text, true, false, Bool-cases, inl, inr, ◌≡◌, refl, sym, ap, ◌∙◌, Option, none, some,
  List, [], ◌∷◌, ◌==◌, if◌then◌else◌, text_eq, text_beq, text_beq_iff, find, discard, arith,
}
use uran_api.Exec.{Result, ok, err, continue, pure, raise, ◌>>=◌, ◌>>◌, or_raise, catch, try}
use uran_api.Go.Text.{codes, cut_prefix, has_prefix}
use uran_api.Go.Unicode.{Unicode, trim, drop_while, trim_space}
use uran_api.Store.{World, Query, Error, Healthy, query, statement}
use uran_api.Store.Models.{User, Session}
use uran_api.Store.Accounts.{
  is_session, is_live, owner_row, token_user, has_hash, user_by_session, user_by_api_token,
  touch_api_token, delete_session,
}
use uran_api.Auth.{
  api_token_prefix, bearer_token, trimmed, resolve, user_by_token, middleware, unauthorized,
}
use uran_api.Api.Accounts.{trim_bearer, handle_logout}
use uran_api.Api.Accounts.Sessions.{at_time}

-- The session of a token that was deleted is not found, whatever the time.
find-discard :
    (token : Text) (now : ℕ) (ss : List Session)
    → find (is_live token now) (discard (is_session token) ss) ≡ none
unfolding find discard
find-discard token now [] = refl
find-discard token now (s ∷ ss) = ground (arith, find-discard token now ss)

other_session :
    (token other : Text) (now : ℕ) (s : Session)
    → text_beq other token ≡ false
    → is_session token s ≡ true
    → is_live other now s ≡ false
other_session token other now s h g = elim (Bool-cases (text_beq s.token other)) [
  | inl e ↦ absurd (differ (sym (text_eq_of s.token other e) ∙ text_eq_of s.token token g))
  | inr e ↦ rw e refl
]
  where
    text_eq_of : (a c : Text) → text_beq a c ≡ true → a ≡ c
    text_eq_of a c e = (text_beq_iff a c).0 e

    differ : other ≡ token → ⊥
    differ e = ground (arith, (text_beq_iff other token).1 e, h)

-- That of another token is found as before.
find-discard_other :
    (token other : Text) (now : ℕ) (ss : List Session)
    → text_beq other token ≡ false
    → find (is_live other now) (discard (is_session token) ss) ≡ find (is_live other now) ss
unfolding find discard
find-discard_other token other now [] h = refl
find-discard_other token other now (s ∷ ss) h =
    ground (arith, other_session token other now s h, find-discard_other token other now ss h)

-- The time of use of a token does not show in the answer.
touched :
    (r : Result Error User) (m : Query Unit) (v w : World)
    → (continue r (λ user. try {F = Error} m >> pure user) v).0
      ≡ (continue r (λ user. try {F = Error} m >> pure user) w).0
unfolding ◌>>=◌ try pure
touched (ok user) m v w = refl
touched (err e) m v w = refl

same_or_raise :
    (m : Query User) (v w : World)
    → (m v).0 ≡ (m w).0
    → (or_raise m unauthorized v).0 ≡ (or_raise m unauthorized w).0
unfolding or_raise catch raise
same_or_raise m v w h = ground (arith, h)

module _ (u : Unicode) (hash_api_token : Text → Text) where
  abbrev without_session : Text → World → World
  without_session token w = record w {
    db = record w.db { sessions = discard (is_session token) w.db.sessions };
    sent = suc w.sent;
  }

  some_after : (after : Text) → (trim_space u after == []) ≡ false → (after == []) ≡ false
  unfolding trim_space trim drop_while text_beq
  some_after [] h = absurd (ground arith)
  some_after (c ∷ after) h = refl

  log_out :
      (header after : Text) (w : World)
      → Healthy w
      → trim_bearer header ≡ after
      → (trim_space u after == []) ≡ false
      → (handle_logout u header w).1 ≡ without_session (trim_space u after) w
  unfolding handle_logout delete_session statement try pure ◌>>=◌
  log_out header after w healthy e h = rw (e, some_after after h, healthy w.sent) refl

  cut_out :
      (header : Text) (o : Option Text) (w : World)
      → Healthy w
      → cut_prefix (codes "Bearer ") header ≡ o
      → (trimmed u hash_api_token o == []) ≡ false
      → (handle_logout u header w).1 ≡ without_session (trimmed u hash_api_token o) w
  unfolding trimmed trim_bearer text_beq cut_prefix
  cut_out header none w healthy e h = absurd (ground (arith, h))
  cut_out header (some after) w healthy e h = log_out header after w healthy (rw e refl) h

  logged_out :
      (header : Text) (w : World)
      → Healthy w
      → (bearer_token u hash_api_token header == []) ≡ false
      → (handle_logout u header w).1 ≡ without_session (bearer_token u hash_api_token header) w
  unfolding bearer_token
  logged_out header w healthy some_token =
      cut_out header (cut_prefix (codes "Bearer ") header) w healthy refl some_token

  session_gone :
      (token again : Text) (later : ℕ) (w : World)
      → Healthy w
      → (token == []) ≡ false
      → has_prefix api_token_prefix token ≡ false
      → bearer_token u hash_api_token again ≡ token
      → (middleware u hash_api_token again (at_time later (without_session token w))).0
        ≡ err unauthorized
  unfolding middleware resolve user_by_session query or_raise catch raise
  session_gone token again later w healthy some_token no_api same =
      rw (same, some_token, no_api, healthy (suc w.sent), find-discard token later w.db.sessions)
        refl

  session_kept :
      (token other : Text) (w : World)
      → Healthy w
      → text_beq other token ≡ false
      → (user_by_session other (without_session token w)).0 ≡ (user_by_session other w).0
  unfolding user_by_session query
  session_kept token other w healthy differ =
      rw
        (
          healthy w.sent,
          healthy (suc w.sent),
          find-discard_other token other w.db.now w.db.sessions differ,
        )
        refl

  api_token_kept :
      (token other : Text) (w : World)
      → Healthy w
      → (user_by_token u hash_api_token other (without_session token w)).0
        ≡ (user_by_token u hash_api_token other w).0
  unfolding user_by_token user_by_api_token touch_api_token query statement ◌>>=◌ try pure
  api_token_kept token other w healthy =
      rw (healthy w.sent, healthy (suc w.sent))
        (touched
          (owner_row w.users (token_user (find (has_hash (hash_api_token other)) w.api_tokens)))
          (touch_api_token (hash_api_token other)) _ _)

  resolve_kept :
      (token other : Text) (w : World)
      → Healthy w
      → text_beq other token ≡ false
      → (resolve u hash_api_token other (without_session token w)).0
        ≡ (resolve u hash_api_token other w).0
  unfolding resolve
  resolve_kept token other w healthy differ =
      elim (Bool-cases (has_prefix api_token_prefix other)) [
        | inl e ↦ rw e (api_token_kept token other w healthy)
        | inr e ↦ rw e (session_kept token other w healthy differ)
      ]

  others_kept :
      (token again : Text) (w : World)
      → Healthy w
      → text_beq (bearer_token u hash_api_token again) token ≡ false
      → (middleware u hash_api_token again (without_session token w)).0
        ≡ (middleware u hash_api_token again w).0
  unfolding middleware raise
  others_kept token again w healthy differ =
      elim (Bool-cases (bearer_token u hash_api_token again == [])) [
        | inl e ↦ rw (e, raise) refl
        | inr e ↦ rw e (
            same_or_raise (resolve u hash_api_token (bearer_token u hash_api_token again)) _ _
              (resolve_kept token _ w healthy differ))
      ]

  -- After a logout with a session's token, while no request to the database fails, a header with the
  -- same token is refused at any time, and a header with another token is let pass, as the same
  -- user, or refused, as without the logout.
  pub handle_logout-middleware :
      (header again : Text) (later : ℕ) (w : World)
      → Healthy w
      → (bearer_token u hash_api_token header == []) ≡ false
      → has_prefix api_token_prefix (bearer_token u hash_api_token header) ≡ false
      → (middleware u hash_api_token again (at_time later (handle_logout u header w).1)).0 ≡ (
          if bearer_token u hash_api_token again == bearer_token u hash_api_token header
          then err unauthorized
          else (middleware u hash_api_token again (at_time later w)).0)
  handle_logout-middleware header again later w healthy some_token no_api =
      let token = bearer_token u hash_api_token header in
      let out =
        ap (λ v. (middleware u hash_api_token again (at_time later v)).0)
          (logged_out header w healthy some_token) in
      elim (Bool-cases (bearer_token u hash_api_token again == token)) [
        | inl e ↦
            out
            ∙ (session_gone token again later w healthy some_token no_api
                  ((text_beq_iff _ token).0 e)
                ∙ rw e refl)
        | inr e ↦ out ∙ (others_kept token again (at_time later w) healthy e ∙ rw e refl)
      ]
