-- ===== src/Api/Schedules/Ordered.antt =====
-- The order in which get-device-timerx.ts answers the rules.
use merossity.Prelude.{ℕ, String}
use merossity.Prelude.{◌≡◌, refl, ◌⊎◌, inl, inr, Bool, true}
use merossity.Prelude.{Option, none, some, List, arith}
use merossity.Json.{Number, Value}
use merossity.Poller.Types.{LanScheduleDigestEntry}
use merossity.Api.Schedules.{TimerXRead, index_le, timer_le, digest_index}

index_le_total :
    {p q : Bool} (i j : Option ℕ)
    → (p ≡ true) ⊎ (q ≡ true)
    → (index_le p i j ≡ true) ⊎ (index_le q j i ≡ true)
index_le_total (some i) (some j) h = ground arith
index_le_total (some i) none h = inl refl
index_le_total none (some j) h = inr refl
index_le_total none none h = h

index_le_trans :
    {p q r : Bool} (i j k : Option ℕ)
    → (p ≡ true → q ≡ true → r ≡ true)
    → index_le p i j ≡ true
    → index_le q j k ≡ true
    → index_le r i k ≡ true
index_le_trans (some i) (some j) (some k) h a b = ground (arith, a, b)
index_le_trans (some i) j none h a b = refl
index_le_trans none (some j) k h a b = cc
index_le_trans none none (some k) h a b = cc
index_le_trans none none none h a b = h a b
index_le_trans (some i) none (some k) h a b = cc

module _ (parse_number : Value → Number) (print_value : Value → String)
    (locale_le : String → String → Bool) where
  pub timer_le_total :
      ((x y : String) → (locale_le x y ≡ true) ⊎ (locale_le y x ≡ true))
      → (digest : List LanScheduleDigestEntry) (a b : TimerXRead)
      → let le = timer_le parse_number print_value locale_le digest in
        (le a b ≡ true) ⊎ (le b a ≡ true)
  unfolding timer_le
  timer_le_total total digest a b =
      index_le_total (digest_index digest a.id) (digest_index digest b.id) (total a.id b.id)

  pub timer_le_trans :
      ((x y z : String) → locale_le x y ≡ true → locale_le y z ≡ true → locale_le x z ≡ true)
      → (digest : List LanScheduleDigestEntry) (a b c : TimerXRead)
      → let le = timer_le parse_number print_value locale_le digest in
        le a b ≡ true → le b c ≡ true → le a c ≡ true
  unfolding timer_le
  timer_le_trans trans digest a b c =
      index_le_trans (digest_index digest a.id) (digest_index digest b.id)
        (digest_index digest c.id) (trans a.id b.id c.id)
