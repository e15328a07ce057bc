-- ===== src/Registry/Routes.antt =====
-- The routing table and the heap it points into: every entry points to the pipeline of its name,
-- and an inline pipeline holds no key of its own.
use metrics_agent.Prelude.{
  ℕ, zero, suc, ◌<◌, ◌≡◌, inl, inr, refl, sym, ap, ◌∙◌, subst, Bool, true, false, List, [], ◌∷◌,
  ◌++◌, Option, none, some, arith, get_elem?, set, length, length-set, Bytes, equal, equal_iff,
  Bool-cases, if◌then◌else◌,
}
use metrics_agent.Data.{default_project}
use metrics_agent.Registry.{Registry, Pipeline, RoutingTable, find, put, or_closed, is_some}

-- A pointer read after a write, for a field that the write keeps.
pub kept {ℓ} :
    {B : Type ℓ} (f : Pipeline → B) (ps : List Pipeline) (i : ℕ) (q : Pipeline)
    → f q ≡ f (or_closed (get_elem? ps i))
    → (j : ℕ) → f (or_closed (get_elem? (set ps i q) j)) ≡ f (or_closed (get_elem? ps j))
kept f [] i q h j = refl
kept f (p ∷ ps) zero q h zero = h
kept f (p ∷ ps) zero q h (suc j) = refl
kept f (p ∷ ps) (suc i) q h zero = refl
kept f (p ∷ ps) (suc i) q h (suc j) = kept f ps i q h j

-- The part of a pipeline that no step changes.
pub record Identity : Type 0 where
  pub name : Bytes
  pub key : Bytes
  pub on_demand : Bool

abbrev pub identity : Pipeline → Identity
identity p = record { name = p.project; key = p.api_key; on_demand = p.inline }

pub record IsRouted (cur : Option RoutingTable) (heap : List Pipeline) : Type 0 where
  pub in_range :
      (t : RoutingTable) (k : Bytes) (i : ℕ)
      → cur ≡ some t
      → find k t.pipelines ≡ some i
      → i < length heap
  -- The entry of a name is the pipeline of this name.
  pub named :
      (t : RoutingTable) (k : Bytes) (i : ℕ)
      → cur ≡ some t
      → find k t.pipelines ≡ some i
      → (or_closed (get_elem? heap i)).project ≡ k
  -- Where the cached flag is set the default project is there, so the fast path finds its entry.
  pub default_there :
      (t : RoutingTable)
      → cur ≡ some t
      → t.has_default ≡ true
      → is_some (find default_project t.pipelines) ≡ true
  -- While the flag is not set, a default project in the table came with its own token.
  pub default_inline :
      (t : RoutingTable) (i : ℕ)
      → cur ≡ some t
      → t.has_default ≡ false
      → find default_project t.pipelines ≡ some i
      → (or_closed (get_elem? heap i)).inline ≡ true
  -- What authorizes an inline pipeline's batches is only the token that came with the events.
  pub no_key :
      (i : ℕ)
      → (or_closed (get_elem? heap i)).inline ≡ true
      → (or_closed (get_elem? heap i)).api_key ≡ []

abbrev pub IsValid : Registry → Type 0
IsValid r = IsRouted r.cur r.heap

-- A write that keeps the identity keeps the routes.
pub store-IsRouted :
    (cur : Option RoutingTable) (heap : List Pipeline) (i : ℕ) (q : Pipeline)
    → identity q ≡ identity (or_closed (get_elem? heap i))
    → IsRouted cur heap
    → IsRouted cur (set heap i q)
store-IsRouted cur heap i q e v = record {
  in_range = λ t k j c f. subst (λ n. j < n) (sym (length-set heap i q)) (v.in_range t k j c f);
  named = λ t k j c f. ap (λ x. x.name) (kept identity heap i q e j) ∙ v.named t k j c f;
  default_there = v.default_there;
  default_inline =
      λ t j c h f. ap (λ x. x.on_demand) (kept identity heap i q e j) ∙ v.default_inline t j c h f;
  no_key = λ j h.
      ap (λ x. x.key) (kept identity heap i q e j)
      ∙ v.no_key j (ap (λ x. x.on_demand) (sym (kept identity heap i q e j)) ∙ h);
}

-- Reading behind what is appended to the heap.
pub get_elem?-snoc :
    (ps : List Pipeline) (q : Pipeline) (j : ℕ)
    → j < length ps
    → get_elem? (ps ++ q ∷ []) j ≡ get_elem? ps j
get_elem?-snoc [] q j h = absurd (omega arith)
get_elem?-snoc (p ∷ ps) q zero h = refl
get_elem?-snoc (p ∷ ps) q (suc j) h = get_elem?-snoc ps q j (omega arith)

pub get_elem?-snoc_last :
    (ps : List Pipeline) (q : Pipeline) → get_elem? (ps ++ q ∷ []) (length ps) ≡ some q
get_elem?-snoc_last [] q = refl
get_elem?-snoc_last (p ∷ ps) q = get_elem?-snoc_last ps q

pub get_elem?-snoc_past :
    (ps : List Pipeline) (q : Pipeline) (j : ℕ) → length ps < j → get_elem? (ps ++ q ∷ []) j ≡ none
get_elem?-snoc_past [] q zero h = absurd (omega arith)
get_elem?-snoc_past [] q (suc j) h = refl
get_elem?-snoc_past (p ∷ ps) q zero h = absurd (omega arith)
get_elem?-snoc_past (p ∷ ps) q (suc j) h = get_elem?-snoc_past ps q j (omega arith)

-- Writing and reading a map.
pub find-put_self {ℓ} :
    {A : Type ℓ} (k : Bytes) (v : A) (m : List (Bytes × A)) → find k (put k v m) ≡ some v
find-put_self k v [] = rw ((equal_iff k k).1 refl) refl
find-put_self k v ((n, w) ∷ m) = elim (Bool-cases (equal k n)) [
  | inl h ↦ rw (h, h) refl
  | inr h ↦ rw (h, h) (find-put_self k v m)
]

pub find-put_ne {ℓ} :
    {A : Type ℓ} (k l : Bytes) (v : A) (m : List (Bytes × A))
    → equal l k ≡ false
    → find l (put k v m) ≡ find l m
find-put_ne k l v [] h = rw h refl
find-put_ne k l v ((n, w) ∷ m) h = elim (Bool-cases (equal k n)) [
  | inl e ↦ rw e (same_tail (subst (λ x. equal l x ≡ false) ((equal_iff k n).0 e) h))
  | inr e ↦ rw e (ap (λ x. if equal l n then some w else x) (find-put_ne k l v m h))
]
  where
    same_tail :
        equal l n ≡ false
        → (if equal l n then some v else find l m) ≡ (if equal l n then some w else find l m)
    same_tail d = rw d refl
