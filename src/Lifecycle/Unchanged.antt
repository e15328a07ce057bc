-- ===== src/Lifecycle/Unchanged.antt =====
-- `keysUnchanged`: the count and one inclusion are enough to compare the table with the keys.
use metrics_agent.Prelude.{
  ℕ, suc, ◌≤◌, ◌≡◌, ◌↔◌, refl, sym, ap, ◌∙◌, subst, true, false, List, [], ◌∷◌, Option, none, some,
  arith, length, Bytes, equal, equal_iff, Each, inl, inr, Bool-cases, Option-cases, if◌then◌else◌,
  ==_iff,
}
use metrics_agent.Registry.{Pipeline, RoutingTable, find}
use metrics_agent.Registry.Registered.{some-inj}
use metrics_agent.Keys.{Keys, has_key, all_keys, keys_unchanged}
use metrics_agent.Keys.Table.{key_at}
use metrics_agent.Lifecycle.Heap.{pipe}
use metrics_agent.Lifecycle.Entries.{Distinct, head-found, Each-found}

module _ {A : Type 0} where
  -- The map without a name.
  abbrev del : Bytes → List (Bytes × A) → List (Bytes × A)
  del n [] = []
  del n ((m, v) ∷ t) = let rest = del n t in if equal n m then t else (m, v) ∷ rest

  length-del :
      (n : Bytes) (v : A) (t : List (Bytes × A))
      → find n t ≡ some v
      → suc (length (del n t)) ≡ length t
  length-del n v [] h = cc
  length-del n v ((m, w) ∷ t) h = elim (Bool-cases (equal n m)) [
    | inl e ↦ rw e refl
    | inr e ↦ rw e (ap suc (length-del n v t (sym (rw e refl) ∙ h)))
  ]

  find-del_ne :
      (n m : Bytes) (t : List (Bytes × A)) → equal m n ≡ false → find m (del n t) ≡ find m t
  find-del_ne n m [] h = refl
  find-del_ne n m ((k, w) ∷ t) h = elim (Bool-cases (equal n k)) [
    | inl e ↦ rw (e, subst (λ x. equal m x ≡ false) ((equal_iff n k).0 e) h) refl
    | inr e ↦ rw e (ap (λ x. if equal m k then some w else x) (find-del_ne n m t h))
  ]

  other-name :
      (n m : Bytes) (k : A) (ks : List (Bytes × A))
      → find n ks ≡ none
      → find m ks ≡ some k
      → equal m n ≡ false
  other-name n m k ks none_there there = elim (Bool-cases (equal m n)) [
    | inr e ↦ e
    | inl e ↦ absurd (cc (sym none_there ∙ ap (λ x. find x ks) (sym ((equal_iff m n).0 e)) ∙ there))
  ]

  here_found : (n : Bytes) (k : A) (ks : List (Bytes × A)) → find n ((n, k) ∷ ks) ≡ some k
  here_found n k ks = rw ((equal_iff n n).1 refl) refl

module _ {A B : Type 0} where
  -- Every name of the first map is one of the second.
  abbrev Included : List (Bytes × A) → List (Bytes × B) → Type 0
  Included ks t = (n : Bytes) (k : A) → find n ks ≡ some k → (v : B) × (find n t ≡ some v)

  Included-tail :
      (n : Bytes) (k : A) (ks : List (Bytes × A)) (t : List (Bytes × B))
      → find n ks ≡ none
      → Included ((n, k) ∷ ks) t
      → Included ks (del n t)
  Included-tail n k ks t fresh h m w f =
      let other = other-name n m w ks fresh f in
      let (v, g) = h m w (rw other f) in (v, find-del_ne n m t other ∙ g)

  length-Included :
      (ks : List (Bytes × A)) (t : List (Bytes × B))
      → Distinct ks
      → Included ks t
      → length ks ≤ length t
  length-Included [] t d h = omega arith
  length-Included ((n, k) ∷ ks) t d h =
      let (v, g) = h n k (here_found n k ks) in
      omega
        (arith, length-del n v t g, length-Included ks (del n t) d.1 (Included-tail n k ks t d.0 h))

  -- A map that includes all the names of another and is no longer has no other name.
  no_others :
      (ks : List (Bytes × A)) (t : List (Bytes × B))
      → Distinct ks
      → Included ks t
      → length t ≤ length ks
      → (m : Bytes) → find m ks ≡ none
      → find m t ≡ none
  no_others [] [] d h n m e = refl
  no_others [] (x ∷ t) d h n m e = absurd (omega (arith, n))
  no_others ((n, k) ∷ ks) t d h len m e = elim (Bool-cases (equal m n)) [
    | inl same ↦ absurd (head-found m n k ks same e)
    | inr other ↦
        let (v, g) = h n k (here_found n k ks) in
        sym (find-del_ne n m t other)
        ∙ no_others ks (del n t) d.1 (Included-tail n k ks t d.0 h)
            (omega (arith, length-del n v t g)) m (sym (rw other refl) ∙ e)
  ]

module _ (heap : List Pipeline) (t : RoutingTable) where
  has_key_iff :
      (n k : Bytes) → (has_key heap t n k ≡ true) ↔ (key_at heap (find n t.pipelines) ≡ some k)
  unfolding has_key
  has_key_iff n k = elim (Option-cases (find n t.pipelines)) [
    | inl e ↦ rw (has_key, e) (λ h. absurd (cc), λ h. absurd (cc))
    | inr (i, e) ↦
        rw (has_key, e)
          (
            λ h. ap some ((equal_iff (pipe heap i).api_key k).0 h),
            λ h. (equal_iff (pipe heap i).api_key k).1 (some-inj [] h),
          )
  ]

  all_keys-cons :
      (n k : Bytes) (ks : Keys)
      → all_keys heap t ((n, k) ∷ ks) ≡ true
      → (has_key heap t n k ≡ true) × (all_keys heap t ks ≡ true)
  unfolding all_keys
  all_keys-cons n k ks h = ground arith

  all_keys-found :
      (keys : Keys)
      → all_keys heap t keys ≡ true
      → (n k : Bytes) → find n keys ≡ some k
      → has_key heap t n k ≡ true
  all_keys-found [] h n k f = absurd (cc)
  all_keys-found ((m, w) ∷ ks) h n k f =
      let split = all_keys-cons m w ks h in
      elim (Bool-cases (equal n m)) [
        | inl e ↦
            let key : w ≡ k = some-inj [] (sym (rw e refl) ∙ f) in
            subst (λ x. has_key heap t n x ≡ true) key
              (subst (λ x. has_key heap t x w ≡ true) (sym ((equal_iff n m).0 e)) split.0)
        | inr e ↦ all_keys-found ks split.1 n k (sym (rw e refl) ∙ f)
      ]

  Each-all_keys :
      (keys : Keys) → Each (λ e. has_key heap t e.0 e.1 ≡ true) keys → all_keys heap t keys ≡ true
  unfolding all_keys
  Each-all_keys [] h = refl
  Each-all_keys ((n, k) ∷ ks) h = rw h.0 (Each-all_keys ks h.1)

  -- The table serves exactly these keys.
  abbrev pub Serves : Keys → Type 0
  Serves keys = (name : Bytes) → key_at heap (find name t.pipelines) ≡ find name keys

  key_at-found : (o : Option ℕ) (k : Bytes) → key_at heap o ≡ some k → (i : ℕ) × (o ≡ some i)
  key_at-found none k h = absurd (cc)
  key_at-found (some i) k h = (i, refl)

  found-key_at :
      (o : Option Bytes) (i : ℕ) → some (pipe heap i).api_key ≡ o → (k : Bytes) × (o ≡ some k)
  found-key_at o i h = ((pipe heap i).api_key, sym h)

  all-Serves :
      (keys : Keys)
      → Distinct keys
      → length t.pipelines ≡ length keys
      → all_keys heap t keys ≡ true
      → Serves keys
  all-Serves keys d len all name = elim (Option-cases (find name keys)) [
    | inr (k, e) ↦ (has_key_iff name k).0 (all_keys-found keys all name k e) ∙ sym e
    | inl e ↦
        let included : Included keys t.pipelines = λ n k f.
          key_at-found (find n t.pipelines) k
            ((has_key_iff n k).0 (all_keys-found keys all n k f)) in
        ap (key_at heap) (no_others keys t.pipelines d included (omega (arith, len)) name e) ∙ sym e
  ]

  Serves-all :
      (keys : Keys)
      → Distinct keys
      → Distinct t.pipelines
      → Serves keys
      → (length t.pipelines ≡ length keys) × (all_keys heap t keys ≡ true)
  Serves-all keys d dt h = (
    omega (
      arith,
      length-Included keys t.pipelines d (λ n k f. key_at-found (find n t.pipelines) k (h n ∙ f)),
      length-Included t.pipelines keys dt
          (λ n i f. found-key_at (find n keys) i (sym (ap (key_at heap) f) ∙ h n)),
    ),
    Each-all_keys keys (
        Each-found (λ n k. has_key heap t n k ≡ true) keys d
          λ n k f. (has_key_iff n k).1 (h n ∙ f)),
  )

  -- A reload takes the keys as unchanged exactly when the table serves them and no other name, where
  -- neither map has a name twice.
  pub keys_unchanged_iff :
      (keys : Keys)
      → Distinct keys
      → Distinct t.pipelines
      → (keys_unchanged heap t keys ≡ true) ↔ Serves keys
  unfolding keys_unchanged
  keys_unchanged_iff keys d dt = (
    λ h.
        all-Serves keys d (ground (arith, ==_iff (length t.pipelines) (length keys)))
          (ground arith),
    λ h.
        let (len, all) = Serves-all keys d dt h in
        ground (arith, len, all, ==_iff (length t.pipelines) (length keys)),
  )
