-- ===== src/Settings/Flags.antt =====
-- The variables that hold a flag.
use metrics_agent.Prelude.{
  ◌≡◌, ◌≢◌, ◌⊎◌, inl, inr, refl, sym, ap, ◌∙◌, Bool, true, false, [], arith, Bytes, codes, equal,
  equal_iff, Bool-cases,
}
use metrics_agent.Settings.{System, ConfigError, ok, is_unset, flag_of, flag_setting}
use metrics_agent.Settings.Chosen.{unset-eq, set-ne, set-ne_nil, ok-inj}

-- The spellings of a flag.
abbrev pub Says : Bytes → Bool → Type 0
Says x true = (x ≡ codes "1") ⊎ ((x ≡ codes "true") ⊎ (x ≡ codes "TRUE"))
Says x false = (x ≡ codes "0") ⊎ ((x ≡ codes "false") ⊎ (x ≡ codes "FALSE"))

flag_of-Says :
    (sys : System) (x : Bytes) (e : ConfigError) (v : Bool) → flag_of sys x e ≡ ok v → Says x v
unfolding flag_of
flag_of-Says sys x e true h =
    ground (arith, equal_iff x (codes "1"), equal_iff x (codes "true"), equal_iff x (codes "TRUE"))
flag_of-Says sys x e false h =
    ground
      (arith, equal_iff x (codes "0"), equal_iff x (codes "false"), equal_iff x (codes "FALSE"))

Says-flag_of :
    (sys : System) (x : Bytes) (e : ConfigError) (v : Bool) → Says x v → flag_of sys x e ≡ ok v
unfolding flag_of equal
Says-flag_of sys x e true (inl h) = rw h refl
Says-flag_of sys x e true (inr (inl h)) = rw h refl
Says-flag_of sys x e true (inr (inr h)) = rw h refl
Says-flag_of sys x e false (inl h) = rw h refl
Says-flag_of sys x e false (inr (inl h)) = rw h refl
Says-flag_of sys x e false (inr (inr h)) = rw h refl

-- A flag for a variable: the default, or what the variable says.
pub data Flagged (sys : System) (name : Bytes) (default v : Bool) : Type 0 where
  left_out : sys.getenv name ≡ [] → v ≡ default → Flagged sys name default v
  said : sys.getenv name ≢ [] → Says (sys.getenv name) v → Flagged sys name default v

module _ (sys : System) (name : Bytes) (default : Bool) (e : ConfigError) (v : Bool) where
  pub flag_setting-Flagged : flag_setting sys name default e ≡ ok v → Flagged sys name default v
  unfolding flag_setting
  flag_setting-Flagged h = elim (Bool-cases (is_unset (sys.getenv name))) [
    | inl u ↦ left_out (unset-eq _ u) (sym (ok-inj (sym (rw u refl) ∙ h)))
    | inr s ↦ said (set-ne_nil _ s) (flag_of-Says sys _ e v (sym (rw s refl) ∙ h))
  ]

  pub Flagged-flag_setting : Flagged sys name default v → flag_setting sys name default e ≡ ok v
  unfolding flag_setting
  Flagged-flag_setting (left_out u d) = rw u (ap ok (sym d))
  Flagged-flag_setting (said s x) = rw (set-ne _ s) (Says-flag_of sys _ e v x)
