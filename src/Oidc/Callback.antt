-- ===== src/Oidc/Callback.antt =====
-- What a login through the provider rests on, and the session that it opens.
use online_colab_document.Base.{
  ℕ, suc, String, some, true, false, ◌==◌, ◌≡◌, ◌≢◌, arith, ap, subst, ==_iff, Option-cases, inl,
  inr, find_where,
}
use online_colab_document.Model.User.{Session}
use online_colab_document.World.{World, M, ◌>>=◌, ok, called}
use online_colab_document.World.Laws.{>>=-eq-ok}
use online_colab_document.Local.Repository.{has_subject}
use online_colab_document.Local.Service.{AuthSession, start_session}
use online_colab_document.Local.Sessions.{session_of}
use online_colab_document.Local.Login.{start_session_ok}
use online_colab_document.Oidc.Service.{
  Service, Provider, Profile, Token, IdToken, identify, normalize_profile, provider,
  upsert_oidc_user, callback,
}
use online_colab_document.Oidc.Accounts.{UniqueUsers, Outcome, upsert_oidc_user_ok}

-- The provider exchanged the code for a token, whose id token it verified and bears this nonce, and
-- gave the profile for the token.
abbrev pub Vouches : Provider → String → String → ℕ → Profile → Type 0
Vouches p code nonce n profile =
    (token : Token) × (raw : String) × (id_token : IdToken) × (fetched : Profile) × (p.exchange n
        code
      ≡ some token)
    × (token.id_token ≡ some raw)
    × (p.verify (suc n) raw ≡ some id_token)
    × (id_token.nonce ≡ nonce)
    × (p.fetch (suc (suc n)) token ≡ some fetched)
    × (profile ≡ normalize_profile fetched id_token.subject)

module _ (p : Provider) (code nonce : String) (w : World) {profile : Profile} {w' : World}
    (h : identify p code nonce w ≡ (ok profile, w')) where
  identify-answers :
      (token : Token) × (raw : String) × (id_token : IdToken) × (fetched : Profile) × (p.exchange
          w.calls code
        ≡ some token)
      × (token.id_token ≡ some raw)
      × (p.verify (suc w.calls) raw ≡ some id_token)
      × (p.fetch (suc (suc w.calls)) token ≡ some fetched)
  unfolding identify
  identify-answers = elim (Option-cases (p.exchange w.calls code)) [
    | inl e ↦ absurd (ground arith)
    | inr (token, e) ↦ elim (Option-cases token.id_token) [
      | inl f ↦ absurd (ground arith)
      | inr (raw, f) ↦ elim (Option-cases (p.verify (suc w.calls) raw)) [
        | inl g ↦ absurd (ground arith)
        | inr (id_token, g) ↦ elim (Option-cases (p.fetch (suc (suc w.calls)) token)) [
          | inl k ↦ absurd (ground arith)
          | inr (fetched, k) ↦ (token, raw, id_token, fetched, e, f, g, k)
        ]
      ]
    ]
  ]

  pub identify_ok :
      Vouches p code nonce w.calls profile
      × (profile.subject ≢ "")
      × (profile.email ≢ "")
      × (w' ≡ called (called (called w)))
  unfolding identify
  identify_ok =
      let (token, raw, id_token, fetched, e, f, g, k) = identify-answers in
      let nonce_of : (id_token.nonce == nonce) ≡ true = ground arith in
      (
        (
          token,
          raw,
          id_token,
          fetched,
          e,
          f,
          g,
          (==_iff id_token.nonce nonce).0 nonce_of,
          k,
          ground arith,
        ),
        λ x. ground (arith, ==_iff profile.subject ""),
        λ x. ground (arith, ==_iff profile.email ""),
        ground arith,
      )

abbrev logged_in : Service → ℕ → Profile → M AuthSession
logged_in s ttl profile = upsert_oidc_user s.cfg profile >>= λ u. start_session u ttl

provider-called :
    (s : Service) (w : World) {p : Provider} {v : World} → provider s w ≡ (ok p, v) → v ≡ called w
unfolding provider
provider-called s w h = elim (Option-cases s.provider_factory) [
  | inl e ↦ absurd (ground arith)
  | inr (factory, e) ↦ ground arith
]

module _ (s : Service) (code nonce : String) (ttl : ℕ) (w : World) {a : AuthSession} {w' : World}
    (h : callback s code nonce ttl w ≡ (ok a, w')) where
  callback-rest : (provider s >>= λ p. identify p code nonce >>= logged_in s ttl) w ≡ (ok a, w')
  unfolding callback
  callback-rest = ground arith

  -- The moment at which the profile is known.
  abbrev pub identified : World
  identified = called (called (called (called w)))

  pub callback_identified :
      (p : Provider) × (profile : Profile) × (provider s w ≡ (ok p, called w))
      × Vouches p code nonce (suc w.calls) profile
      × (logged_in s ttl profile identified ≡ (ok a, w'))
  callback_identified =
      let (p, v, e, f) = >>=-eq-ok (provider s) _ w callback-rest in
      let e' : provider s w ≡ (ok p, called w) = rw (← provider-called s w e) e in
      let f' : (identify p code nonce >>= logged_in s ttl) (called w) ≡ (ok a, w') =
        rw (← provider-called s w e) f in
      let (profile, u, g, k) = >>=-eq-ok (identify p code nonce) _ (called w) f' in
      let (vouched, _, _, same) = identify_ok p code nonce (called w) g in
      (p, profile, e', vouched, rw (← same) k)

-- A login through the provider that succeeds rests on a profile that the provider vouches for, with
-- the nonce that the login was begun with. It answers with an account that is not disabled and has
-- the subject of the profile, and its token names a stored session of that account.
pub callback_ok :
    (s : Service) (code nonce : String) (ttl : ℕ) (w : World) {a : AuthSession} {w' : World}
    → UniqueUsers w.db.users
    → callback s code nonce ttl w ≡ (ok a, w')
    → (p : Provider) × (profile : Profile) × (provider s w ≡ (ok p, called w))
      × Vouches p code nonce (suc w.calls) profile
      × (v : World) × (find_where (has_subject profile.subject) v.db.users ≡ some a.user)
      × (a.user.disabled ≡ false)
      × Outcome s.cfg profile w a.user v
      × (r : Session) × (session_of w' a.token ≡ some r)
      × (r.user_id ≡ a.user.id)
      × (r.expires_at ≡ a.expires_at)
callback_ok s code nonce ttl w {a = a} {w' = w'} unique h =
    let (p, profile, e, vouched, rest) = callback_identified s code nonce ttl w h in
    let (u, v, upserted, started) =
      >>=-eq-ok (upsert_oidc_user s.cfg profile) _ (called (called (called (called w)))) rest in
    let (found, enabled, outcome) =
      upsert_oidc_user_ok s.cfg profile (called (called (called (called w)))) unique upserted in
    let (r, named, user, ends, same) = start_session_ok u ttl v (ap (λ x. x.0) started) in
    (
      p,
      profile,
      e,
      vouched,
      v,
      rw same found,
      rw same enabled,
      rw same outcome,
      r,
      subst (λ x. session_of x a.token ≡ some r) (ap (λ x. x.1) started) named,
      rw same user,
      ends,
    )
