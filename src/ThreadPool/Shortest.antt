-- ===== src/ThreadPool/Shortest.antt =====
-- The thread that `push_to_threadpool` of browse_server/http_server.cpp chooses.
use video_match.Base.{
  ℕ, suc, ◌+◌, ◌-◌, ◌≤◌, ◌<◌, ◌≡◌, refl, ◌⊎◌, inl, inr, Bool-cases, List, [], ◌∷◌, none, some, ◌==◌,
  ltb, length, get_or, arith, ap, sym, ◌∙◌,
}
use video_match.ThreadPool.{
  ThreadState, max_thread_size, sizes, shortest, Choice, new_thread, queue_of, out_of_bounds,
  choose,
}

-- No number of the list is below this.
abbrev pub Least : ℕ → List ℕ → Type 0
Least n [] = Unit
Least n (m ∷ ms) = (n ≤ m) × Least n ms

-- The choice after the loop over `ns` from `i` on, where it was thread `j` before.
record Chosen (ns : List ℕ) (i j least j' least' : ℕ) : Type 0 where
  found : shortest ns i (some (j, least)) ≡ some (j', least')
  no_more : least' ≤ least
  smallest : Least least' ns
  stands :
      ((j' ≡ j) × (least' ≡ least))
      ⊎ ((i ≤ j') × (j' < i + length ns) × (get_or ns (j' - i) 0 ≡ least'))

get_or_next :
    (n : ℕ) (ns : List ℕ) (i j : ℕ) → i < j → get_or (n ∷ ns) (j - i) 0 ≡ get_or ns (j - (i + 1)) 0
get_or_next n ns i j lt = let next : j - i ≡ suc (j - (i + 1)) = omega (arith, lt) in rw next refl

shortest-Chosen :
    (ns : List ℕ) (i j least : ℕ) → (j' : ℕ) × (least' : ℕ) × Chosen ns i j least j' least'
unfolding shortest
shortest-Chosen [] i j least = (
  j,
  least,
  record { found = refl; no_more = omega arith; smallest = tt; stands = inl (refl, refl) },
)
shortest-Chosen (n ∷ ns) i j least = elim (Bool-cases (ltb n least)) [
  | inl less ↦
      let (j', least', c) = shortest-Chosen ns (i + 1) i n in
      (
        j',
        least',
        record {
          found = rw less c.found;
          no_more = ground (arith, less, c.no_more);
          smallest = (c.no_more, c.smallest);
          stands = elim c.stands [
            | inl (same, size) ↦ inr (
              omega (arith, same),
              omega (arith, same),
              (let start : j' - i ≡ 0 = omega (arith, same) in rw start (sym size)),
            )
            | inr (far, near, at) ↦ inr (
              omega (arith, far),
              omega (arith, near),
              get_or_next n ns i j' (omega (arith, far)) ∙ at,
            )
          ];
        },
      )
  | inr more ↦
      let (j', least', c) = shortest-Chosen ns (i + 1) j least in
      (
        j',
        least',
        record {
          found = rw more c.found;
          no_more = c.no_more;
          smallest = (ground (arith, more, c.no_more), c.smallest);
          stands = elim c.stands [
            | inl same ↦ inl same
            | inr (far, near, at) ↦ inr (
              omega (arith, far),
              omega (arith, near),
              get_or_next n ns i j' (omega (arith, far)) ∙ at,
            )
          ];
        },
      )
]

pub length-sizes : (threads : List ThreadState) → length (sizes threads) ≡ length threads
length-sizes [] = refl
length-sizes (t ∷ threads) = ap suc (length-sizes threads)

-- What the choice means: a new thread only where no queue is empty and there are fewer than 16
-- threads; else a thread whose queue is as short as any, and that is empty unless there are 16.
abbrev pub Chooses : List ThreadState → Choice → Type 0
Chooses threads new_thread = (length threads < max_thread_size) × Least 1 (sizes threads)
Chooses threads (queue_of i) =
    (i < length threads)
    × Least (get_or (sizes threads) i 0) (sizes threads)
    × ((get_or (sizes threads) i 0 ≡ 0) ⊎ (max_thread_size ≤ length threads))
Chooses threads out_of_bounds = ⊥

Least_mono : (m n : ℕ) (ns : List ℕ) → m ≤ n → Least n ns → Least m ns
Least_mono m n [] le l = tt
Least_mono m n (k ∷ ns) le l = (omega (arith, le, l.0), Least_mono m n ns le l.1)

-- Where the loop ends at thread `j` of some threads.
record Ends (threads : List ThreadState) (j least : ℕ) : Type 0 where
  found : shortest (sizes threads) 0 none ≡ some (j, least)
  inside : j < length threads
  size : get_or (sizes threads) j 0 ≡ least
  smallest : Least least (sizes threads)

shortest-Ends :
    (t : ThreadState) (threads : List ThreadState)
    → (j : ℕ) × (least : ℕ) × Ends (t ∷ threads) j least
unfolding shortest
shortest-Ends t threads =
    let (j, least, c) = shortest-Chosen (sizes threads) 1 0 (length t.q) in
    (
      j,
      least,
      record {
        found = c.found;
        inside = elim c.stands [
          | inl (same, size) ↦ omega (arith, same)
          | inr (far, near, at) ↦ omega (arith, near, length-sizes threads)
        ];
        size = elim c.stands [
          | inl (same, size) ↦ (let start : j ≡ 0 = same in rw start (sym size))
          | inr (far, near, at) ↦
              let place : j ≡ j - 0 = omega arith in
              ap (λ x. get_or (length t.q ∷ sizes threads) x 0) place
              ∙ get_or_next (length t.q) (sizes threads) 0 j (omega (arith, far))
              ∙ at
        ];
        smallest = (c.no_more, c.smallest);
      },
    )

choose-Ends :
    (threads : List ThreadState) (j least : ℕ)
    → Ends threads j least
    → Chooses threads (choose threads)
unfolding choose
choose-Ends threads j least e = elim (Bool-cases (least == 0)) [
  | inl idle ↦
      rw (e.found, choose, Chooses)
        (rw idle (e.inside, rw e.size e.smallest, inl (ground (arith, idle, e.size))))
  | inr busy ↦ elim (Bool-cases (ltb (length threads) max_thread_size)) [
    | inl more ↦
        rw (e.found, choose, Chooses)
          (rw busy (
            rw more (
              ground (arith, more),
              Least_mono 1 least (sizes threads) (ground (arith, busy)) e.smallest,
            )))
    | inr full ↦
        rw (e.found, choose, Chooses)
          (rw busy (rw full (e.inside, rw e.size e.smallest, inr (ground (arith, full)))))
  ]
]

-- `push_to_threadpool` starts a new thread just where no queue is empty and there are fewer than 16
-- threads; else it takes a thread that is there, whose queue is as short as any of them, and which
-- is empty unless there are 16 threads. It never reads a thread that is not there.
pub choose-Chooses : (threads : List ThreadState) → Chooses threads (choose threads)
unfolding choose shortest
choose-Chooses [] = (omega arith, tt)
choose-Chooses (t ∷ threads) =
    let (j, least, e) = shortest-Ends t threads in choose-Ends (t ∷ threads) j least e
