-- ===== src/Web/Auth/Invariant.antt =====
-- What the login machine of apps/web/src/state/authMachine.ts guarantees.
use merossity.Prelude.{◌≡◌, ◌≢◌, ◌⊎◌, inl, inr, true}
use merossity.Prelude.{some, List, [], ◌∷◌, arith, eq_iff}
use merossity.Prelude.{Option-cases}
use merossity.Prelude.{All}
use merossity.Prelude.Texts.{trim}
use merossity.Web.Auth.{
  AuthEvent, LoginInput, is_digits, editing, submitting, success, Auth, auth_step, run_auth,
}

-- The password and the code are gone after a successful login.
abbrev pub IsCleared : Auth → Type 0
IsCleared m = (m.state ≢ success) ⊎ ((m.context.password ≡ "") × (m.context.totp ≡ ""))

auth_step-IsCleared :
    (m : Auth) (e : AuthEvent) → IsCleared m → IsCleared (auth_step m.state m.context e).0
unfolding auth_step
auth_step-IsCleared m e h = ground arith

-- A request that was checked: a code of six digits, an address and a password.
abbrev pub IsChecked : LoginInput → Type 0
IsChecked i = (is_digits 6 i.mfa_code ≡ true) × (i.email ≢ "") × (i.password ≢ "")

auth_step-IsChecked :
    (m : Auth) (e : AuthEvent) {login : LoginInput}
    → (auth_step m.state m.context e).1 ≡ some login
    → IsChecked login × (m.state ≡ editing) × ((auth_step m.state m.context e).0.state ≡ submitting)
unfolding auth_step
auth_step-IsChecked m e h =
    ground (arith, eq_iff (trim m.context.email) "", eq_iff m.context.password "")

-- In every run each login that is started has a code of six digits, an address and a password,
-- and once one has succeeded the password and the code are gone.
pub run_auth-safe :
    (m : Auth) (events : List AuthEvent)
    → IsCleared m
    → IsCleared (run_auth m events).0 × All IsChecked (run_auth m events).1
unfolding run_auth
run_auth-safe m [] h = (h, tt)
run_auth-safe m (e ∷ events) h =
    let (m', started) = auth_step m.state m.context e in
    let (cleared, logins) = run_auth-safe m' events (auth_step-IsCleared m e h) in
    (
      cleared,
      elim (Option-cases (auth_step m.state m.context e).1) [
        | inl n ↦ rw (n, All) logins
        | inr (login, s) ↦ rw (s, All) ((auth_step-IsChecked m e s).0, logins)
      ],
    )
