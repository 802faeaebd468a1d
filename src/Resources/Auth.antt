-- ===== src/Resources/Auth.antt =====
-- What becomes of the keys of the auth Secret.
use mathlib.Core.Path.{subst}
use hyperbytedb_operator.Prelude.{
  ◌≡◌, ◌≢◌, refl, sym, ◌∙◌, String, false, [], Option, none, some, str_eq, eq_iff, arith,
  if◌then◌else◌, Bool-cases, Option-cases, Failure, Result, ok, err, not_found, already_exists,
  conflict, other, inl, inr, ◌⊎◌,
}
use hyperbytedb_operator.Resources.{
  create, update, Api, AuthSecret, Draws, or_draw, with_keys, fill_auth_secret, lacks_key, no_keys,
  keep_auth_secret, reconcile_auth_secret,
}
use hyperbytedb_operator.Resources.Laws.{cell, stored}

abbrev IsOk : {A : Type 0} → (A → Type 0) → Result A → Type 0
IsOk P (ok a) = P a
IsOk P (err e) = Unit

-- One key: a value that is there stays, and one that is missing is drawn.
abbrev IsKept : (before after : String) → Result String → Type 0
IsKept before after draw = (before ≢ "" → after ≡ before) × (before ≡ "" → draw ≡ ok after)

-- The Secret `s` has the keys of `before`, filled.
pub record IsFilled (draws : Draws) (before s : AuthSecret) : Type 0 where
  pub token : IsKept before.cluster_token s.cluster_token draws.token
  pub username : IsKept before.admin_username s.admin_username (ok "admin")
  pub password : IsKept before.admin_password s.admin_password draws.password

or_draw-IsKept :
    (before after : String) (draw : Result String)
    → or_draw before draw ≡ ok after
    → IsKept before after draw
or_draw-IsKept before after draw h = ground (arith, eq_iff before "")

username-IsKept :
    (before : String) → IsKept before (if str_eq before "" then "admin" else before) (ok "admin")
username-IsKept before = ground (arith, eq_iff before "")

with_keys-IsFilled :
    (draws : Draws) (before s : AuthSecret) (t p : Result String)
    → or_draw before.cluster_token draws.token ≡ t
    → or_draw before.admin_password draws.password ≡ p
    → with_keys before t p ≡ ok s
    → IsFilled draws before s
with_keys-IsFilled draws before s (err e) p et ep h = cc
with_keys-IsFilled draws before s (ok t) (err e) et ep h = cc
with_keys-IsFilled draws before s (ok t) (ok p) et ep h =
    let kept : IsFilled draws before (record {
      cluster_token = t;
      admin_username = if str_eq before.admin_username "" then "admin" else before.admin_username;
      admin_password = p;
    }) =
      record {
        token = or_draw-IsKept before.cluster_token t draws.token et;
        username = username-IsKept before.admin_username;
        password = or_draw-IsKept before.admin_password p draws.password ep;
      } in
    subst (λ r. IsOk (IsFilled draws before) r) h kept

fill-IsFilled :
    (draws : Draws) (before s : AuthSecret)
    → fill_auth_secret draws before ≡ ok s
    → IsFilled draws before s
unfolding fill_auth_secret
fill-IsFilled draws before s h =
    with_keys-IsFilled draws before s (or_draw before.cluster_token draws.token)
      (or_draw before.admin_password draws.password) refl refl h

-- The keys that were there before the pass.
abbrev pub before_pass : Option AuthSecret → AuthSecret
before_pass none = no_keys
before_pass (some s) = s

-- A Secret with the token `t` is stored, filled from the one before the pass.
abbrev pub IsStored : Draws → Option AuthSecret → String → Option AuthSecret → Type 0
IsStored draws before t none = ⊥
IsStored draws before t (some s) = (s.cluster_token ≡ t) × IsFilled draws (before_pass before) s

-- A Secret that lacks no key is filled already.
whole-IsFilled : (draws : Draws) (s : AuthSecret) → lacks_key s ≡ false → IsFilled draws s s
unfolding lacks_key
whole-IsFilled draws s h = record {
  token = (λ _. refl, λ e. ground (arith, eq_iff s.cluster_token ""));
  username = (λ _. refl, λ e. ground (arith, eq_iff s.admin_username ""));
  password = (λ _. refl, λ e. ground (arith, eq_iff s.admin_password ""));
}

whole-token :
    (draws : Draws) (before s : AuthSecret)
    → lacks_key before ≡ false
    → IsFilled draws before s
    → before.cluster_token ≡ s.cluster_token
unfolding lacks_key
whole-token draws before s h f =
    sym (f.token.0 (λ e. ground (arith, eq_iff before.cluster_token "")))

Filled-cases :
    (draws : Draws) (before : AuthSecret)
    → ((s : AuthSecret) × (fill_auth_secret draws before ≡ ok s) × IsFilled draws before s)
      ⊎ ((e : Failure) × (fill_auth_secret draws before ≡ err e))
Filled-cases draws before = go (fill_auth_secret draws before) refl
  where
    go :
        (r : Result AuthSecret)
        → fill_auth_secret draws before ≡ r
        → ((s : AuthSecret) × (fill_auth_secret draws before ≡ ok s) × IsFilled draws before s)
          ⊎ ((e : Failure) × (fill_auth_secret draws before ≡ err e))
    go (ok s) h = inl (s, h, fill-IsFilled draws before s h)
    go (err e) h = inr (e, h)

module _ (api : Api AuthSecret) (draws : Draws) where
  keep-IsStored :
      (r : Result AuthSecret) (t : String)
      → (keep_auth_secret api draws r []).0 ≡ ok t
      → IsStored draws (cell r) t (stored (cell r) (keep_auth_secret api draws r []).1)
  unfolding keep_auth_secret
  keep-IsStored (ok existing) t h = elim (Filled-cases draws existing) [
    | inr (e, fe) ↦ cc (simp (fe) at h)
    | inl (s, fe, filled) ↦ elim (Bool-cases (lacks_key existing)) [
      | inr b ↦
          let e : s.cluster_token ≡ t = cc (simp (fe, b) at h) in
          simp (fe, b) (whole-token draws existing s b filled ∙ e, whole-IsFilled draws existing b)
      | inl b ↦ elim (Option-cases (api.answer (update s))) [
        | inr (e, a) ↦ cc (simp (fe, b, a) at h)
        | inl a ↦
            let e : s.cluster_token ≡ t = cc (simp (fe, b, a) at h) in simp (fe, b, a) (e, filled)
      ]
    ]
  ]
  keep-IsStored (err not_found) t h = elim (Filled-cases draws no_keys) [
    | inr (e, fe) ↦ cc (simp (fe) at h)
    | inl (s, fe, filled) ↦ elim (Option-cases (api.answer (create s))) [
      | inr (e, a) ↦ cc (simp (fe, a) at h)
      | inl a ↦ let e : s.cluster_token ≡ t = cc (simp (fe, a) at h) in simp (fe, a) (e, filled)
    ]
  ]
  keep-IsStored (err already_exists) t h = cc
  keep-IsStored (err conflict) t h = cc
  keep-IsStored (err (other n)) t h = cc

-- After a reconcile of the auth Secret that returned the token `t` a Secret with that token is there.
-- Each of its three keys that had a value before the pass has it still, and each that had none has
-- the drawn value, or `admin` for the name.
pub reconcile_auth_secret-IsStored :
    (api : Api AuthSecret) (draws : Draws) (t : String)
    → (reconcile_auth_secret api draws []).0 ≡ ok t
    → IsStored draws (cell api.get) t (stored (cell api.get) (reconcile_auth_secret api draws []).1)
unfolding reconcile_auth_secret
reconcile_auth_secret-IsStored api draws t h = keep-IsStored api draws api.get t h
