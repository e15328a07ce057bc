-- ===== src/Lifecycle/Entries.antt =====
-- The entries of a table as a list: no name twice, and what the steps make of this.
use metrics_agent.Prelude.{
  ℕ, ◌≡◌, ◌≢◌, refl, sym, ◌∙◌, subst, true, false, List, [], ◌∷◌, Option, none, some, arith, Bytes,
  equal, equal_iff, Each, inl, inr, Bool-cases, if_both, get_elem?,
}
use metrics_agent.Registry.{Pipeline, RoutingTable, find, put, or_closed, with_project}
use metrics_agent.Registry.Routes.{find-put_ne}
use metrics_agent.Keys.{Keys, put_all, build_pipelines, reusable, place, is_idle, entries_of}
use metrics_agent.Keys.Expiry.{live_entries, live_entries-none}

abbrev pub Distinct : {A : Type 0} → List (Bytes × A) → Type 0
Distinct [] = Unit
Distinct ((n, v) ∷ m) = (find n m ≡ none) × Distinct m

equal-sym : (k n : Bytes) → equal k n ≡ false → equal n k ≡ false
equal-sym k n h = ground (arith, equal_iff k n, equal_iff n k)

pub head-found :
    {A : Type 0} (name n : Bytes) (v : A) (m : List (Bytes × A))
    → equal name n ≡ true
    → find name ((n, v) ∷ m) ≢ none
head-found name n v m e h = cc (sym shown ∙ h)
  where
    shown : find name ((n, v) ∷ m) ≡ some v
    shown = rw e refl

-- What holds of each entry that is found holds of all.
pub Each-found :
    {A : Type 0} (P : Bytes → A → Type 0) (m : List (Bytes × A))
    → Distinct m
    → ((k : Bytes) (v : A) → find k m ≡ some v → P k v)
    → Each (λ e. P e.0 e.1) m
Each-found P [] d h = tt
Each-found P ((n, v) ∷ m) d h = (
  h n v (rw ((equal_iff n n).1 refl) refl),
  Each-found P m d.1 λ k w f. elim (Bool-cases (equal k n)) [
    | inl e ↦ absurd (cc (sym d.0 ∙ subst (λ x. find x m ≡ some w) ((equal_iff k n).0 e) f))
    | inr e ↦ h k w (rw e f)
  ],
)

pub Distinct-put :
    {A : Type 0} (k : Bytes) (v : A) (m : List (Bytes × A)) → Distinct m → Distinct (put k v m)
Distinct-put k v [] d = (refl, tt)
Distinct-put k v ((n, w) ∷ m) d = elim (Bool-cases (equal k n)) [
  | inl e ↦ rw e d
  | inr e ↦ rw e (find-put_ne k n v m (equal-sym k n e) ∙ d.0, Distinct-put k v m d.1)
]

pub Distinct-put_all : (ks m : Keys) → Distinct m → Distinct (put_all ks m)
Distinct-put_all [] m d = d
Distinct-put_all ((k, v) ∷ ks) m d = Distinct-put_all ks (put k v m) (Distinct-put k v m d)

pub Distinct-with_project :
    (project : Bytes) (i : ℕ) (cur : Option RoutingTable)
    → Distinct (entries_of cur)
    → Distinct (with_project project i cur).pipelines
Distinct-with_project project i none d = (refl, tt)
Distinct-with_project project i (some t) d = Distinct-put project i t.pipelines d

module _ (now : ℕ) (prev : Option RoutingTable) where
  build_pipelines-unknown :
      (name : Bytes) (keys : Keys) (heap : List Pipeline)
      → find name keys ≡ none
      → find name (build_pipelines now prev keys heap).0 ≡ none
  unfolding build_pipelines
  build_pipelines-unknown name [] heap h = refl
  build_pipelines-unknown name ((n, key) ∷ ks) heap h = elim (Bool-cases (equal name n)) [
    | inl e ↦ absurd (head-found name n _ _ e h)
    | inr e ↦ rw e (build_pipelines-unknown name ks _ (sym (rw e refl) ∙ h))
  ]

  pub build_pipelines-Distinct :
      (keys : Keys) (heap : List Pipeline)
      → Distinct keys
      → Distinct (build_pipelines now prev keys heap).0
  unfolding build_pipelines
  build_pipelines-Distinct [] heap d = tt
  build_pipelines-Distinct ((n, key) ∷ ks) heap d =
      let x = place now n key heap (reusable heap prev n key) in
      (build_pipelines-unknown n ks x.1 d.0, build_pipelines-Distinct ks x.1 d.1)

module _ (cutoff : ℕ) (heap : List Pipeline) where
  pub live_entries-Distinct :
      (es : List (Bytes × ℕ)) → Distinct es → Distinct (live_entries cutoff heap es)
  unfolding live_entries
  live_entries-Distinct [] d = tt
  live_entries-Distinct ((n, i) ∷ es) d =
      let rest = live_entries-Distinct es d.1 in
      if_both (λ (x : List (Bytes × ℕ)). Distinct x) (is_idle cutoff (or_closed (get_elem? heap i)))
        rest (live_entries-none cutoff heap es n d.0, rest)

  -- An entry that is kept was there.
  pub live_entries-found :
      (name : Bytes) (i : ℕ) (es : List (Bytes × ℕ))
      → Distinct es
      → find name (live_entries cutoff heap es) ≡ some i
      → find name es ≡ some i
  unfolding live_entries
  live_entries-found name i [] d h = h
  live_entries-found name i ((n, j) ∷ es) d h =
      elim (Bool-cases (is_idle cutoff (or_closed (get_elem? heap j)))) [
        | inl idle ↦
            let old = live_entries-found name i es d.1 (sym (rw idle refl) ∙ h) in
            elim (Bool-cases (equal name n)) [
              | inl e ↦
                  absurd
                    (cc (sym d.0 ∙ subst (λ x. find x es ≡ some i) ((equal_iff name n).0 e) old))
              | inr e ↦ rw e old
            ]
        | inr k ↦
            let shown : find name ((n, j) ∷ live_entries cutoff heap es) ≡ some i =
              sym (rw k refl) ∙ h in
            elim (Bool-cases (equal name n)) [
              | inl e ↦ rw e (sym (rw e refl) ∙ shown)
              | inr e ↦ rw e (live_entries-found name i es d.1 (sym (rw e refl) ∙ shown))
            ]
      ]
