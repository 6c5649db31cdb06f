-- ===== src/HttpServer/Clients.antt =====
-- The connections and the threads of the server in browse_server/http_server.cpp as lists in which
-- one place is changed at a time.
use video_match.Base.{
  ℕ, zero, suc, ◌+◌, ◌≤◌, ◌<◌, ◌≡◌, refl, Bool, true, false, List, [], ◌∷◌, ◌++◌, Option, some,
  ◌==◌, if◌then◌else◌, length, set, count, count_if, arith, ap, ◌∙◌, inl, inr, ◌⊎◌,
}
use video_match.HttpServer.{Client, client_at, thread_at}
use video_match.ThreadPool.Counting.{queued}
use video_match.ThreadPool.{ThreadState, change, Move, lock, process, wait, thread_proc}
use video_match.VideoDb.Sets.{bit}

pub client_at-set :
    (clients : List Client) (i j : ℕ) (c : Client) {before : Client}
    → client_at i clients ≡ some before
    → client_at j (set clients i c) ≡ (if i == j then some c else client_at j clients)
client_at-set [] i j c at = absurd (cc at)
client_at-set (x ∷ clients) zero zero c at = refl
client_at-set (x ∷ clients) zero (suc j) c at = ground arith
client_at-set (x ∷ clients) (suc i) zero c at = ground arith
client_at-set (x ∷ clients) (suc i) (suc j) c at = ground (arith, client_at-set clients i j c at)

pub client_at-append :
    (clients : List Client) (j : ℕ) (c : Client)
    → client_at j (clients ++ c ∷ [])
      ≡ (if j == length clients then some c else client_at j clients)
client_at-append [] zero c = refl
client_at-append [] (suc j) c = ground arith
client_at-append (x ∷ clients) zero c = ground arith
client_at-append (x ∷ clients) (suc j) c = ground (arith, client_at-append clients j c)

pub client_at-lt :
    (clients : List Client) (i : ℕ) {c : Client} → client_at i clients ≡ some c → i < length clients
client_at-lt [] i at = absurd (cc at)
client_at-lt (x ∷ clients) zero at = omega arith
client_at-lt (x ∷ clients) (suc i) at = omega (arith, client_at-lt clients i at)

pub count_if-set :
    (p : Client → Bool) (clients : List Client) (i : ℕ) (c : Client) {before : Client}
    → client_at i clients ≡ some before
    → count_if p (set clients i c) + bit (p before) ≡ count_if p clients + bit (p c)
count_if-set p [] i c at = absurd (cc at)
count_if-set p (x ∷ clients) zero c {before} at =
    let same : x ≡ before = cc at in omega (arith, ap (λ y. bit (p y)) same)
count_if-set p (x ∷ clients) (suc i) c at = omega (arith, count_if-set p clients i c at)

-- Whoever passes the test is counted.
pub count_if_at :
    (p : Client → Bool) (clients : List Client) (i : ℕ) {c : Client}
    → client_at i clients ≡ some c
    → p c ≡ true
    → 1 ≤ count_if p clients
count_if_at p [] i at holds = absurd (cc at)
count_if_at p (x ∷ clients) zero {c} at holds =
    let same : x ≡ c = cc at in let there : p x ≡ true = ap p same ∙ holds in ground (arith, there)
count_if_at p (x ∷ clients) (suc i) at holds = omega (arith, count_if_at p clients i at holds)

pub queued-change :
    (n j : ℕ) (threads : List ThreadState) (t' : ThreadState) {t : ThreadState}
    → thread_at n threads ≡ some t
    → queued j (change (λ _. t') n threads) + count j t.q ≡ queued j threads + count j t'.q
unfolding change
queued-change n j [] t' at = absurd (cc at)
queued-change zero j (x ∷ threads) t' {t} at =
    let same : x ≡ t = cc at in omega (arith, ap (λ (y : ThreadState). count j y.q) same)
queued-change (suc n) j (x ∷ threads) t' at = omega (arith, queued-change n j threads t' at)

out_of :
    {t t' : ThreadState} {out done : List ℕ}
    → ◌≡◌ {A = Option (ThreadState × List ℕ)} (some (t, done)) (some (t', out))
    → out ≡ done
out_of run = cc

-- A move takes no connection from the queue, or the first one.
pub thread_proc-out :
    (m : Move) (q : List ℕ) (locked : Bool) {t' : ThreadState} {out : List ℕ}
    → thread_proc m (record { q = q; locked = locked }) ≡ some (t', out)
    → (out ≡ []) ⊎ ((i : ℕ) × (out ≡ i ∷ []))
unfolding thread_proc
thread_proc-out lock q true run = absurd (cc run)
thread_proc-out lock q false run = inl (out_of run)
thread_proc-out process [] locked run = absurd (cc run)
thread_proc-out process (i ∷ q) false run = absurd (cc run)
thread_proc-out process (i ∷ q) true run = inr (i, out_of run)
thread_proc-out wait (i ∷ q) locked run = absurd (cc run)
thread_proc-out wait [] false run = absurd (cc run)
thread_proc-out wait [] true run = inl (out_of run)
