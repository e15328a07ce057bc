-- ===== src/Events/Trimmed.antt =====
-- The text that `validateEvent` finds between the white space.
use metrics_agent.Prelude.{
  ℕ, ◌≤◌, ◌≡◌, refl, sym, ap, ◌∙◌, true, false, [], ◌∷◌, ◌++◌, reverse, reverse-append,
  reverse-reverse, append-nil, arith, length, length-append, Bytes,
}
use metrics_agent.Scan.{is_json_space, scan_ws}
use metrics_agent.Scan.Spaces.{
  Spaces, Spaces-reverse, scan_ws-stop, scan_ws-append, scan_ws-Skipped,
}
use metrics_agent.Events.{trimmed, head_is, in_braces}

-- A text in braces, with white space round it.
pub record Wrapped (b t : Bytes) : Type 0 where
  pub front : Bytes
  pub inner : Bytes
  pub back : Bytes
  pub front_spaces : Spaces front
  pub back_spaces : Spaces back
  pub braces : t ≡ b'{' ∷ (inner ++ b'}' ∷ [])
  pub splits : b ≡ front ++ (t ++ back)

open_no_space : is_json_space b'{' ≡ false
unfolding is_json_space
open_no_space = refl

close_no_space : is_json_space b'}' ≡ false
unfolding is_json_space
close_no_space = refl

-- A text in braces, read from its end.
reverse-braces :
    (m v : Bytes)
    → reverse (b'{' ∷ (m ++ b'}' ∷ []) ++ v) ≡ reverse v ++ b'}' ∷ (reverse m ++ b'{' ∷ [])
reverse-braces m v =
    reverse-append (b'{' ∷ (m ++ b'}' ∷ [])) v
    ∙ ap (λ x. reverse v ++ x)
        (reverse-append (b'{' ∷ m) (b'}' ∷ []) ∙ ap (λ x. b'}' ∷ x) (reverse-append (b'{' ∷ []) m))

pub Wrapped-trimmed : (b t : Bytes) → Wrapped b t → trimmed b ≡ t
unfolding trimmed
Wrapped-trimmed b t w =
    let ahead : scan_ws b ≡ t ++ w.back =
      ap scan_ws w.splits
      ∙ scan_ws-append w.front _ w.front_spaces
      ∙ rw w.braces (scan_ws-stop _ open_no_space) in
    let behind : scan_ws (reverse (t ++ w.back)) ≡ reverse t = rw w.braces (
      ap scan_ws (reverse-braces w.inner w.back)
      ∙ scan_ws-append (reverse w.back) _ (Spaces-reverse w.back w.back_spaces)
      ∙ scan_ws-stop _ close_no_space
      ∙ sym (reverse-braces w.inner [])
      ∙ ap reverse (append-nil (b'{' ∷ (w.inner ++ b'}' ∷ [])))) in
    ap (λ x. reverse (scan_ws (reverse x))) ahead ∙ ap reverse behind ∙ reverse-reverse t

head_is-eq : (x : ℕ) (s : Bytes) → head_is x s ≡ true → (r : Bytes) × (s ≡ x ∷ r)
head_is-eq x [] h = cc
head_is-eq x (c ∷ r) h = (r, ground arith)

last_split : (x : ℕ) (t : Bytes) → head_is x (reverse t) ≡ true → (m : Bytes) × (t ≡ m ++ x ∷ [])
last_split x t h =
    let (q, e) = head_is-eq x (reverse t) h in
    (reverse q, sym (reverse-reverse t) ∙ ap reverse e ∙ reverse-append (x ∷ []) q)

-- A text of at least two bytes that ends with `}` and begins with `{`.
braced_split :
    (t m : Bytes)
    → t ≡ m ++ b'}' ∷ []
    → head_is b'{' t ≡ true
    → 2 ≤ length t
    → (i : Bytes) × (t ≡ b'{' ∷ (i ++ b'}' ∷ []))
braced_split t [] e h n = absurd (omega (arith, ap length e))
braced_split t (c ∷ m) e h n =
    let same : c ≡ b'{' = ground (arith, ap (head_is b'{') e) in
    (m, e ∙ ap (λ x. x ∷ (m ++ b'}' ∷ [])) same)

in_braces-split : (t : Bytes) → in_braces t ≡ true → (m : Bytes) × (t ≡ b'{' ∷ (m ++ b'}' ∷ []))
unfolding in_braces
in_braces-split t h =
    let (m, e) = last_split b'}' t (ground arith) in
    braced_split t m e (ground arith) (ground arith)

pub braces-in_braces : (m : Bytes) → in_braces (b'{' ∷ (m ++ b'}' ∷ [])) ≡ true
unfolding in_braces
braces-in_braces m =
    let long : 2 ≤ length (b'{' ∷ (m ++ b'}' ∷ [])) = omega (arith, length-append m (b'}' ∷ [])) in
    let last : head_is b'}' (reverse (b'{' ∷ (m ++ b'}' ∷ []))) ≡ true =
      ap (λ x. head_is b'}' (reverse x)) (sym (append-nil (b'{' ∷ (m ++ b'}' ∷ []))))
      ∙ ap (head_is b'}') (reverse-braces m []) in
    ground arith

pub in_braces-Wrapped : (b : Bytes) → in_braces (trimmed b) ≡ true → Wrapped b (trimmed b)
unfolding trimmed
in_braces-Wrapped b h =
    let (m, e) = in_braces-split (trimmed b) h in
    let ahead = scan_ws-Skipped b in
    let behind = scan_ws-Skipped (reverse (scan_ws b)) in
    record {
      front = ahead.spaces;
      inner = m;
      back = reverse behind.spaces;
      front_spaces = ahead.are_spaces;
      back_spaces = Spaces-reverse _ behind.are_spaces;
      braces = e;
      splits =
          ahead.splits
          ∙ ap (λ x. ahead.spaces ++ x)
              (sym (reverse-reverse (scan_ws b))
                ∙ ap reverse behind.splits
                ∙ reverse-append behind.spaces _);
    }
