-- ===== src/Settings/Chosen.antt =====
-- The integer settings of `loadConfig`: what a variable chooses, and that the code chooses it.
use metrics_agent.Prelude.{
  ℕ, ◌≤◌, ◌≡◌, ◌≢◌, inl, inr, refl, sym, ap, ◌∙◌, true, false, [], ◌∷◌, Option, none, some, arith,
  Bytes, Bool-cases,
}
use metrics_agent.Data.{ℤ, pos, negsuc}
use metrics_agent.Settings.{
  System, ConfigError, Result, ok, refused, ◌>>=◌, is_unset, in_range, milliseconds, int_setting,
  ms_setting,
}

abbrev pub Below : Option ℕ → ℕ → Type 0
Below none n = Unit
Below (some hi) n = n ≤ hi

-- A number for a variable: the default, or what the variable says within its bounds.
pub data Chosen (sys : System) (name : Bytes) (default lo : ℕ) (hi : Option ℕ) (unit : ℕ → ℕ)
    (v : ℕ) : Type 0 where
  by_default : sys.getenv name ≡ [] → v ≡ default → Chosen sys name default lo hi unit v
  by_name :
      (n : ℕ)
      → sys.getenv name ≢ []
      → sys.atoi (sys.getenv name) ≡ some (pos n)
      → lo ≤ n
      → Below hi n
      → v ≡ unit n
      → Chosen sys name default lo hi unit v

pub unset-eq : (v : Bytes) → is_unset v ≡ true → v ≡ []
unset-eq [] h = refl
unset-eq (c ∷ s) h = cc

pub set-ne : (v : Bytes) → v ≢ [] → is_unset v ≡ false
set-ne [] h = absurd (h refl)
set-ne (c ∷ s) h = refl

pub set-ne_nil : (v : Bytes) → is_unset v ≡ false → v ≢ []
set-ne_nil [] h e = cc
set-ne_nil (c ∷ s) h e = cc

pub ok-inj {ℓ} : {A : Type ℓ} {a b : A} → ok a ≡ ok b → a ≡ b
ok-inj e = cc

in_range-ok :
    (lo : ℕ) (hi : Option ℕ) (o : Option ℤ) (e : ConfigError) (v : ℕ)
    → in_range lo hi o e ≡ ok v
    → (o ≡ some (pos v)) × (lo ≤ v) × Below hi v
unfolding in_range
in_range-ok lo hi none e v h = cc
in_range-ok lo hi (some (negsuc n)) e v h = cc
in_range-ok lo none (some (pos n)) e v h = ground arith
in_range-ok lo (some hi) (some (pos n)) e v h = ground arith

in_range-some :
    (lo : ℕ) (hi : Option ℕ) (n : ℕ) (e : ConfigError)
    → lo ≤ n
    → Below hi n
    → in_range lo hi (some (pos n)) e ≡ ok n
unfolding in_range
in_range-some lo none n e h k = ground arith
in_range-some lo (some hi) n e h k = ground arith

module _ (sys : System) (name : Bytes) (default lo : ℕ) (hi : Option ℕ) (e : ConfigError) where
  pub int_setting-Chosen :
      (v : ℕ)
      → int_setting sys name default lo hi e ≡ ok v
      → Chosen sys name default lo hi (λ n. n) v
  unfolding int_setting
  int_setting-Chosen v h = elim (Bool-cases (is_unset (sys.getenv name))) [
    | inl u ↦ by_default (unset-eq _ u) (sym (ok-inj (sym (rw u refl) ∙ h)))
    | inr s ↦
        let r = in_range-ok lo hi (sys.atoi (sys.getenv name)) e v (sym (rw s refl) ∙ h) in
        by_name v (set-ne_nil _ s) r.0 r.1 r.2 refl
  ]

  pub Chosen-int_setting :
      (v : ℕ)
      → Chosen sys name default lo hi (λ n. n) v
      → int_setting sys name default lo hi e ≡ ok v
  unfolding int_setting
  Chosen-int_setting v (by_default u d) = rw u (ap ok (sym d))
  Chosen-int_setting v (by_name n s a l b d) =
      rw (set-ne _ s, a) (in_range-some lo hi n e l b ∙ ap ok (sym d))

  times_unit :
      (o : Option ℤ) (v : ℕ)
      → (in_range lo hi o e >>= λ ms. ok (milliseconds ms)) ≡ ok v
      → (n : ℕ) × (in_range lo hi o e ≡ ok n) × (v ≡ milliseconds n)
  times_unit o v h = go (in_range lo hi o e) h
    where
      go :
          (m : Result ℕ)
          → (m >>= λ ms. ok (milliseconds ms)) ≡ ok v
          → (n : ℕ) × (m ≡ ok n) × (v ≡ milliseconds n)
      go (ok n) k = (n, refl, sym (ok-inj k))
      go (refused x) k = cc

  pub ms_setting-Chosen :
      (v : ℕ)
      → ms_setting sys name default lo hi e ≡ ok v
      → Chosen sys name default lo hi milliseconds v
  unfolding ms_setting
  ms_setting-Chosen v h = elim (Bool-cases (is_unset (sys.getenv name))) [
    | inl u ↦ by_default (unset-eq _ u) (sym (ok-inj (sym (rw u refl) ∙ h)))
    | inr s ↦
        let t = times_unit (sys.atoi (sys.getenv name)) v (sym (rw s refl) ∙ h) in
        let r = in_range-ok lo hi (sys.atoi (sys.getenv name)) e t.0 t.1 in
        by_name t.0 (set-ne_nil _ s) r.0 r.1 r.2 t.2
  ]

  pub Chosen-ms_setting :
      (v : ℕ)
      → Chosen sys name default lo hi milliseconds v
      → ms_setting sys name default lo hi e ≡ ok v
  unfolding ms_setting
  Chosen-ms_setting v (by_default u d) = rw u (ap ok (sym d))
  Chosen-ms_setting v (by_name n s a l b d) =
      rw (set-ne _ s, a, in_range-some lo hi n e l b) (ap ok (sym d))
