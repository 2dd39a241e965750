-- ===== src/Registry/Rounds.antt =====
-- The round-robin balancer.
use mathlib.Core.List.{append-nil, ◌++◌, append_assoc}
use Prim.Native.Nat.{◌%◌}
use native.Mathlib.Nat
use landc_go.Registry.{ServiceInstance, round_robin_pick, get_elem?, counter_end, List}
use landc_go.Prelude.{
  List, Option, [], ap, arith, length, refl, some, suc, sym, zero, ℕ, ◌+◌, ◌<◌, ◌∙◌, ◌∷◌, ◌≡◌, map,
  inl, inr, ◌⊎◌,
}

-- The instances that a number of picks in a row give, and the counter behind them.
unfoldable pub picks : ℕ → ℕ → List ServiceInstance → List (Option ServiceInstance)
unfolding round_robin_pick
picks zero counter xs = []
picks (suc n) counter xs =
    (round_robin_pick counter xs).1 ∷ picks n (round_robin_pick counter xs).0 xs

get_elem?-append :
    (pre post : List ServiceInstance) (x : ServiceInstance)
    → get_elem? (pre ++ (x ∷ post)) (length pre) ≡ some x
unfolding get_elem?
get_elem?-append [] post x = refl
get_elem?-append (y ∷ pre) post x = get_elem?-append pre post x

round_robin_pick-at :
    (counter : ℕ) (xs pre post : List ServiceInstance) (x : ServiceInstance)
    → xs ≡ pre ++ (x ∷ post)
    → counter % length xs ≡ length pre
    → counter + 1 < counter_end
    → round_robin_pick counter xs ≡ (counter + 1, some x)
unfolding round_robin_pick
round_robin_pick-at counter [] [] post x split at small = absurd (omega (arith, ap length split))
round_robin_pick-at counter [] (y ∷ pre) post x split at small =
    absurd (omega (arith, ap length split))
round_robin_pick-at counter (z ∷ xs) pre post x split at small =
    let wrap : (counter + 1) % counter_end ≡ counter + 1 = omega (arith, small) in
    let found : get_elem? (z ∷ xs) (counter % length (z ∷ xs)) ≡ some x =
      ap (get_elem? (z ∷ xs)) at
      ∙ ap (λ (l : List ServiceInstance). get_elem? l (length pre)) split
      ∙ get_elem?-append pre post x in
    rw (round_robin_pick, wrap, found) refl

index-add : (counter n k j : ℕ) → counter % n ≡ k → k + j < n → (counter + j) % n ≡ k + j
index-add counter n k j at small =
    sym (Nat.mod-add-mod counter n j) ∙ rw at (Nat.mod-eq_of_lt small)

index-wrap : (counter n k j : ℕ) → counter % n ≡ k → k + j ≡ n → (counter + j) % n ≡ 0
index-wrap counter n k j at full =
    sym (Nat.mod-add-mod counter n j) ∙ rw (at, full) (Nat.mod_self n)

length-one :
    (pre : List ServiceInstance) (x : ServiceInstance) → length (pre ++ (x ∷ [])) ≡ length pre + 1
length-one [] x = refl
length-one (y ∷ pre) x = omega (arith, length-one pre x)

length-both : (pre post : List ServiceInstance) → length (pre ++ post) ≡ length pre + length post
length-both [] post = omega arith
length-both (y ∷ pre) post = omega (arith, length-both pre post)

-- Picks through a part of the list, from its first instance on.
picks-through :
    (xs : List ServiceInstance) (counter : ℕ) (pre mid post : List ServiceInstance)
    → xs ≡ pre ++ (mid ++ post)
    → (counter % length xs ≡ length pre) ⊎ (mid ≡ [])
    → counter + length mid < counter_end
    → picks (length mid) counter xs ≡ map (λ x. some x) mid
unfolding picks
picks-through xs counter pre [] post split at small = refl
picks-through xs counter pre (x ∷ mid) post split (inr none_left) small =
    absurd (omega (arith, ap length none_left))
picks-through xs counter pre (x ∷ mid) post split (inl at) small =
    let one = round_robin_pick-at counter xs pre (mid ++ post) x split at (omega (arith, small)) in
    let moved : xs ≡ (pre ++ (x ∷ [])) ++ (mid ++ post) =
      split ∙ sym (append_assoc pre (x ∷ []) (mid ++ post)) in
    rw one (
      ap (λ (l : List (Option ServiceInstance)). some x ∷ l)
        (picks-through xs (counter + 1) (pre ++ (x ∷ [])) mid post moved (next mid moved)
          (omega (arith, small))))
  where
    next :
        (rest : List ServiceInstance)
        → xs ≡ (pre ++ (x ∷ [])) ++ (rest ++ post)
        → ((counter + 1) % length xs ≡ length (pre ++ (x ∷ []))) ⊎ (rest ≡ [])
    next [] moved = inr refl
    next (y ∷ rest) moved =
        let size = ap length moved ∙ length-both (pre ++ (x ∷ [])) (y ∷ (rest ++ post)) in
        let front = length-one pre x in
        inl
          (index-add counter (length xs) (length pre) 1 at (omega (arith, size, front)) ∙ sym front)

picks-add :
    (a b counter : ℕ) (z : ServiceInstance) (xs : List ServiceInstance)
    → counter + a < counter_end
    → picks (a + b) counter (z ∷ xs) ≡ picks a counter (z ∷ xs) ++ picks b (counter + a) (z ∷ xs)
unfolding picks round_robin_pick
picks-add zero b counter z xs small = rw (Nat.zero-add b, Nat.add-zero counter) refl
picks-add (suc a) b counter z xs small =
    let wrap : (counter + 1) % counter_end ≡ counter + 1 = omega (arith, small) in
    let later : counter + suc a ≡ counter + 1 + a = omega arith in
    let more : suc a + b ≡ suc (a + b) = omega arith in
    rw (more, later, wrap)
      (ap
        (λ (l : List (Option ServiceInstance)). get_elem? (z ∷ xs) (counter % length (z ∷ xs)) ∷ l)
        (picks-add a b (counter + 1) z xs (omega (arith, small))))

map-append_some :
    (xs ys : List ServiceInstance)
    → map (λ x. some x) (xs ++ ys) ≡ map (λ x. some x) xs ++ map (λ x. some x) ys
map-append_some [] ys = refl
map-append_some (x ∷ xs) ys = rw (map-append_some xs ys) refl

-- As many picks as there are instances, as long as the counter does not overflow, give each instance
-- once: the ones from the counter's place on, and then those before it.
pub round_robin_pick-round :
    (xs : List ServiceInstance) (counter : ℕ) (pre rest : List ServiceInstance)
    → xs ≡ pre ++ rest
    → counter % length xs ≡ length pre
    → counter + length xs < counter_end
    → picks (length xs) counter xs ≡ map (λ x. some x) (rest ++ pre)
unfolding picks
round_robin_pick-round [] counter [] [] split at small = refl
round_robin_pick-round [] counter (y ∷ pre) rest split at small =
    absurd (omega (arith, ap length split))
round_robin_pick-round [] counter [] (y ∷ rest) split at small =
    absurd (omega (arith, ap length split))
round_robin_pick-round (z ∷ xs) counter pre rest split at small =
    let size = ap length split ∙ length-both pre rest in
    let total : length (z ∷ xs) ≡ length rest + length pre = omega (arith, size) in
    let wrapped = index-wrap counter (length (z ∷ xs)) (length pre) (length rest) at (sym size) in
    let first =
      picks-through (z ∷ xs) counter pre rest []
        (split ∙ ap (λ (l : List ServiceInstance). pre ++ l) (sym (append-nil rest))) (inl at)
        (omega (arith, small, total)) in
    let second =
      picks-through (z ∷ xs) (counter + length rest) [] pre rest split (inl wrapped)
        (omega (arith, small, total)) in
    ap (λ n. picks n counter (z ∷ xs)) total
    ∙ picks-add (length rest) (length pre) counter z xs (omega (arith, small, total))
    ∙ ap
        (λ (l : List (Option ServiceInstance)).
          l ++ picks (length pre) (counter + length rest) (z ∷ xs))
        first
    ∙ ap (λ (l : List (Option ServiceInstance)). map (λ x. some x) rest ++ l) second
    ∙ sym (map-append_some rest pre)
