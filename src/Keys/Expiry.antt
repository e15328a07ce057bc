-- ===== src/Keys/Expiry.antt =====
-- `expireInline`: which entries stay in the table.
use metrics_agent.Prelude.{
  ℕ, ◌-◌, ◌+◌, ◌≤◌, ◌⊎◌, Each, true, if◌then◌else◌, ◌<◌, ◌≡◌, inl, inr, refl, sym, ap, ◌∙◌, subst,
  false, List, [], ◌∷◌, none, some, arith, leb, ◌==◌, ==_iff, get_elem?, length, Bytes, equal,
  Bool-cases, Option-cases, if_both,
}
use metrics_agent.Registry.{Pipeline, Registry, RoutingTable, find, or_closed}
use metrics_agent.Registry.Registered.{some-inj}
use metrics_agent.Keys.Table.{find-head, find-tail}
use metrics_agent.Keys.{is_idle, among, keep_live, retired, entries_of, expire_table, expire_inline}

-- The entries whose pipelines are not idle, asked of each by itself.
unfoldable pub live_entries : ℕ → List Pipeline → List (Bytes × ℕ) → List (Bytes × ℕ)
live_entries cutoff heap [] = []
live_entries cutoff heap ((name, i) ∷ es) =
    let rest = live_entries cutoff heap es in
    if is_idle cutoff (or_closed (get_elem? heap i)) then rest else (name, i) ∷ rest

-- The pipeline of an entry, not idle.
abbrev pub Live : ℕ → List Pipeline → ℕ → Type 0
Live cutoff heap i = is_idle cutoff (or_closed (get_elem? heap i)) ≡ false

module _ (cutoff : ℕ) (heap : List Pipeline) where
  pub live_entries-find :
      (es : List (Bytes × ℕ)) (name : Bytes) (i : ℕ)
      → find name es ≡ some i
      → Live cutoff heap i
      → find name (live_entries cutoff heap es) ≡ some i
  unfolding live_entries
  live_entries-find [] name i h l = h
  live_entries-find ((n, j) ∷ es) name i h l = elim (Bool-cases (equal name n)) [
    | inl e ↦
        let here : j ≡ i = some-inj 0 (sym (rw e refl) ∙ h) in
        rw (subst (Live cutoff heap) (sym here) l, e) (ap some here)
    | inr e ↦
        let rest = live_entries-find es name i (sym (rw e refl) ∙ h) l in
        if_both (λ (x : List (Bytes × ℕ)). find name x ≡ some i)
          (is_idle cutoff (or_closed (get_elem? heap j))) rest (rw e rest)
  ]

  pub live_entries-Live :
      (es : List (Bytes × ℕ)) (name : Bytes) (i : ℕ)
      → find name (live_entries cutoff heap es) ≡ some i
      → Live cutoff heap i
  unfolding live_entries
  live_entries-Live [] name i h = cc
  live_entries-Live ((n, j) ∷ es) name i h =
      elim (Bool-cases (is_idle cutoff (or_closed (get_elem? heap j)))) [
        | inl idle ↦ live_entries-Live es name i (sym (rw idle refl) ∙ h)
        | inr k ↦
            let shown : find name ((n, j) ∷ live_entries cutoff heap es) ≡ some i =
              sym (rw k refl) ∙ h in
            elim (Bool-cases (equal name n)) [
              | inl e ↦ subst (Live cutoff heap) (some-inj 0 (sym (rw e refl) ∙ shown)) k
              | inr e ↦ live_entries-Live es name i (sym (rw e refl) ∙ shown)
            ]
      ]

  retired-Live :
      (es : List (Bytes × ℕ)) (name : Bytes) (i : ℕ)
      → retired cutoff heap es ≡ []
      → find name es ≡ some i
      → Live cutoff heap i
  unfolding retired
  retired-Live [] name i n h = cc
  retired-Live ((m, j) ∷ es) name i n h =
      elim (Bool-cases (is_idle cutoff (or_closed (get_elem? heap j)))) [
        | inl idle ↦
            let shown : retired cutoff heap ((m, j) ∷ es) ≡ j ∷ retired cutoff heap es =
              rw idle refl in
            absurd (cc (sym shown ∙ n))
        | inr k ↦
            let shown : retired cutoff heap ((m, j) ∷ es) ≡ retired cutoff heap es = rw k refl in
            elim (Bool-cases (equal name m)) [
              | inl e ↦ subst (Live cutoff heap) (find-head name m j i es e h) k
              | inr e ↦ retired-Live es name i (sym shown ∙ n) (find-tail name m j i es e h)
            ]
      ]

module _ (cutoff : ℕ) (heap : List Pipeline) where
  -- Only idle pipelines are retired.
  retired-idle :
      (es : List (Bytes × ℕ)) (i : ℕ)
      → among i (retired cutoff heap es) ≡ true
      → is_idle cutoff (or_closed (get_elem? heap i)) ≡ true
  unfolding retired
  retired-idle [] i h = cc
  retired-idle ((n, j) ∷ es) i h =
      elim (Bool-cases (is_idle cutoff (or_closed (get_elem? heap j)))) [
        | inr live ↦ retired-idle es i (ground (arith, live, h))
        | inl idle ↦ elim (Bool-cases (j == i)) [
          | inl e ↦
              subst (λ k. is_idle cutoff (or_closed (get_elem? heap k)) ≡ true) ((==_iff j i).0 e)
                idle
          | inr e ↦ retired-idle es i (ground (arith, idle, e, h))
        ]
      ]

  -- Each entry is among the dead exactly when its pipeline is idle.
  Tested : List ℕ → List (Bytes × ℕ) → Type 0
  Tested dead es = Each (λ e. among e.1 dead ≡ is_idle cutoff (or_closed (get_elem? heap e.1))) es

  keep_live-Tested :
      (dead : List ℕ) (es : List (Bytes × ℕ))
      → Tested dead es
      → keep_live dead es ≡ live_entries cutoff heap es
  unfolding keep_live live_entries Tested
  keep_live-Tested dead [] h = refl
  keep_live-Tested dead ((n, i) ∷ es) h = rw (h.0, keep_live-Tested dead es h.1) refl

  -- All entries behind a part of the table.
  retired-among :
      (es : List (Bytes × ℕ)) (all : List ℕ)
      → ((i : ℕ) → among i all ≡ true → is_idle cutoff (or_closed (get_elem? heap i)) ≡ true)
      → ((i : ℕ) → among i (retired cutoff heap es) ≡ true → among i all ≡ true)
      → Tested all es
  unfolding retired Tested
  retired-among [] all sound all_in = tt
  retired-among ((n, i) ∷ es) all sound all_in =
      elim (Bool-cases (is_idle cutoff (or_closed (get_elem? heap i)))) [
        | inl idle ↦ (
          all_in i (ground (arith, idle)) ∙ sym idle,
          retired-among es all sound (λ j h. all_in j (ground (arith, idle, h))),
        )
        | inr live ↦ (
          elim (Bool-cases (among i all)) [
            | inl hit ↦ absurd (cc (sym (sound i hit) ∙ live))
            | inr miss ↦ miss ∙ sym live
          ],
          retired-among es all sound (λ j h. all_in j (ground (arith, live, h))),
        )
      ]

  pub keep_live-retired :
      (es : List (Bytes × ℕ)) → keep_live (retired cutoff heap es) es ≡ live_entries cutoff heap es
  keep_live-retired es =
      keep_live-Tested (retired cutoff heap es) es
        (retired-among es (retired cutoff heap es) (retired-idle es) (λ i h. h))

  pub live_entries-none :
      (es : List (Bytes × ℕ)) (name : Bytes)
      → find name es ≡ none
      → find name (live_entries cutoff heap es) ≡ none
  unfolding live_entries
  live_entries-none [] name h = refl
  live_entries-none ((n, i) ∷ es) name h = elim (Bool-cases (equal name n)) [
    | inl e ↦ absurd (ground (arith, e, h))
    | inr e ↦
        let rest = live_entries-none es name (ground (arith, e, h)) in
        if_both (λ (x : List (Bytes × ℕ)). find name x ≡ none)
          (is_idle cutoff (or_closed (get_elem? heap i))) rest (rw e rest)
  ]

length-zero {ℓ} : {A : Type ℓ} (xs : List A) → length xs ≡ 0 → xs ≡ []
length-zero [] h = refl
length-zero (x ∷ xs) h = absurd (omega arith)

-- A pipeline of the keys file, or one that has had traffic within the window.
abbrev pub Fresh : ℕ → ℕ → Pipeline → Type 0
Fresh idle now p = (p.inline ≡ false) ⊎ (now ≤ p.last_seen + idle)

Fresh-Live :
    (idle now : ℕ) (heap : List Pipeline) (i : ℕ)
    → Fresh idle now (or_closed (get_elem? heap i))
    → Live (now - idle) heap i
Fresh-Live idle now heap i h = ground (arith, h)

Live-Fresh :
    (idle now : ℕ) (heap : List Pipeline) (i : ℕ)
    → Live (now - idle) heap i
    → Fresh idle now (or_closed (get_elem? heap i))
Live-Fresh idle now heap i h = ground (arith, h)

-- What the table shows of a name after an expiry.
pub record Expired (idle now : ℕ) (heap : List Pipeline) (old new : List (Bytes × ℕ)) : Type 0 where
  pub keeps :
      (name : Bytes) (i : ℕ)
      → find name old ≡ some i
      → Fresh idle now (or_closed (get_elem? heap i))
      → find name new ≡ some i
  pub only_fresh :
      (name : Bytes) (i : ℕ)
      → find name new ≡ some i
      → Fresh idle now (or_closed (get_elem? heap i))
  pub no_new : (name : Bytes) → find name old ≡ none → find name new ≡ none

expire_table-Expired :
    (idle now : ℕ) (t : RoutingTable) (r : Registry)
    → r.cur ≡ some t
    → Expired idle now r.heap t.pipelines (entries_of (expire_table (now - idle) t r).0.cur)
unfolding expire_table
expire_table-Expired idle now t r e =
    let cutoff = now - idle in
    elim (Bool-cases (length (retired cutoff r.heap t.pipelines) == 0)) [
      | inl none_gone ↦
          let gone = length-zero (retired cutoff r.heap t.pipelines) ((==_iff _ 0).0 none_gone) in
          rw (none_gone, e)
            (record {
              keeps = λ name i h l. h;
              only_fresh = λ name i h.
                  Live-Fresh idle now r.heap i
                    (retired-Live cutoff r.heap t.pipelines name i gone h);
              no_new = λ name h. h;
            })
      | inr some_gone ↦
          rw (some_gone, keep_live-retired cutoff r.heap t.pipelines)
            (record {
              keeps = λ name i h l.
                  live_entries-find cutoff r.heap t.pipelines name i h
                    (Fresh-Live idle now r.heap i l);
              only_fresh = λ name i h.
                  Live-Fresh idle now r.heap i
                    (live_entries-Live cutoff r.heap t.pipelines name i h);
              no_new = live_entries-none cutoff r.heap t.pipelines;
            })
    ]

leb_zero : (idle : ℕ) → 0 < idle → leb idle 0 ≡ false
leb_zero idle h = ground arith

pub expire_inline-some :
    (idle now : ℕ) (t : RoutingTable) (r : Registry)
    → 0 < idle
    → r.cur ≡ some t
    → expire_inline idle now r ≡ expire_table (now - idle) t r
unfolding expire_inline
expire_inline-some idle now t r h e = simp (expire_inline, leb_zero idle h, e) refl

pub expire_inline-none :
    (idle now : ℕ) (r : Registry) → 0 < idle → r.cur ≡ none → expire_inline idle now r ≡ (r, 0)
unfolding expire_inline
expire_inline-none idle now r h e = simp (expire_inline, leb_zero idle h, e) refl

-- With a window, an expiry keeps in the table every pipeline of the keys file and every inline
-- pipeline whose last traffic lies within the window before `now`, and it keeps no other; no name
-- is added.
pub expire_inline-Expired :
    (idle now : ℕ) (r : Registry)
    → 0 < idle
    → Expired idle now r.heap (entries_of r.cur) (entries_of (expire_inline idle now r).0.cur)
expire_inline-Expired idle now r h = elim (Option-cases r.cur) [
  | inl e ↦
      rw (expire_inline-none idle now r h e, e)
        (record {
          keeps = λ name i f l. f;
          only_fresh = λ name i f. absurd (cc);
          no_new = λ name f. f;
        })
  | inr (t, e) ↦
      subst
        (λ x. Expired idle now r.heap (entries_of x) (entries_of (expire_inline idle now r).0.cur))
        (sym e)
        (subst (λ (x : Registry × ℕ). Expired idle now r.heap t.pipelines (entries_of x.0.cur))
          (sym (expire_inline-some idle now t r h e)) (expire_table-Expired idle now t r e))
]
