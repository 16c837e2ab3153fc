-- ===== src/Thread/Balance.antt =====
-- What moving threads between run queues keeps: no thread is lost or doubled, each is on the queue of its
-- own processor, and the current thread stays where it is.
use paging_os.Base.{
  write, ℕ, zero, suc, ◌+◌, ◌<◌, ◌≤◌, ◌≡◌, ◌≢◌, refl, sym, ◌∙◌, subst, Bool, true, false, some,
  arith, ◌==◌, Bool-cases, inl, inr, ==_refl,
}
use paging_os.Machine.Threadlists.{ThreadlistOps, ThreadlistLaws, on, on-addtail, on-remhead}
use paging_os.Thread.{Smp, curthread}

-- No processor holds its lock.
abbrev pub Free : (ℕ → Bool) → Type 0
Free lock = (c : ℕ) → lock c ≡ false

pub relock : (lock : ℕ → Bool) (c : ℕ) → Free lock → Free (write c false (write c true lock))
relock lock c free x = elim (Bool-cases (x == c)) [ inl e ↦ rw e refl | inr e ↦ rw e (free x) ]

pub released :
    (lock : ℕ → Bool) (c : ℕ) (l : ℕ → Bool)
    → Free lock
    → l ≡ write c true lock
    → Free (write c false l)
released lock c l free e x = rw e (relock lock c free x)

module _ {L : Type 0} (tl : ThreadlistOps L) where
  -- How often thread `t` is on the first `n` queues.
  abbrev pub total : (q : ℕ → L) → (n t : ℕ) → ℕ
  total q zero t = 0
  total q (suc n) t = total q n t + on tl t (q n)

  pub total-write_out :
      (q : ℕ → L) (n t c : ℕ) (l : L) → n ≤ c → total (write c l q) n t ≡ total q n t
  total-write_out q zero t c l h = refl
  total-write_out q (suc n) t c l h =
      let e : (n == c) ≡ false = ground arith in
      let ih = total-write_out q n t c l (omega arith) in rw (e, ih) refl

  pub total-write :
      (q : ℕ → L) (n t c : ℕ) (l : L)
      → c < n
      → total (write c l q) n t + on tl t (q c) ≡ total q n t + on tl t l
  total-write q zero t c l h = absurd (omega arith)
  total-write q (suc n) t c l h = elim (Bool-cases (n == c)) [
    | inl e ↦
        let z : n ≡ c = ground arith in
        let out = total-write_out q n t c l (omega arith) in rw (e, out) (rw z (omega arith))
    | inr e ↦ let ih = total-write q n t c l (ground arith) in rw e (omega (arith, ih))
  ]

  pub on_le_total : (q : ℕ → L) (n t c : ℕ) → c < n → on tl t (q c) ≤ total q n t
  on_le_total q zero t c h = absurd (omega arith)
  on_le_total q (suc n) t c h = elim (Bool-cases (n == c)) [
    | inl e ↦ let z : n ≡ c = ground arith in rw (← z) (omega arith)
    | inr e ↦ omega (arith, on_le_total q n t c (ground arith))
  ]

  -- The queues and the victims `v`, that a migration that started in `s0` has reached.
  pub record Balanced (s0 s : Smp L) (v : L) : Type 0 where
    pub num : s.num_cpus ≡ s0.num_cpus
    pub cur : s.curcpu ≡ s0.curcpu
    pub current : s.c_curthread ≡ s0.c_curthread
    pub states : s.t_state ≡ s0.t_state
    pub conserve :
        (t : ℕ) → total s.c_runqueue s0.num_cpus t + on tl t v ≡ total s0.c_runqueue s0.num_cpus t
    pub home : (t c : ℕ) → c < s0.num_cpus → 0 < on tl t (s.c_runqueue c) → s.t_cpu t ≡ c
    pub away : (t : ℕ) → 0 < on tl t v → s.t_cpu t ≡ s0.curcpu
    pub kept : s.t_cpu (curthread s0) ≡ s0.t_cpu (curthread s0)
    pub ipi : (c : ℕ) → s.c_ipi_lock c ≡ false

module _ {L : Type 0} (tl : ThreadlistOps L) (laws : ThreadlistLaws tl) (s0 : Smp L) where
  -- Locks of the queues do not matter.
  pub Balanced-relock :
      (s : Smp L) (v : L) (lock : ℕ → Bool)
      → Balanced tl s0 s v
      → Balanced tl s0 (record s { c_runqueue_lock = lock }) v
  Balanced-relock s v lock b = record {
    num = b.num;
    cur = b.cur;
    current = b.current;
    states = b.states;
    conserve = b.conserve;
    home = b.home;
    away = b.away;
    kept = b.kept;
    ipi = b.ipi;
  }

  -- Threads that change the order among the victims.
  pub Balanced-same :
      (s : Smp L) (v w : L)
      → Balanced tl s0 s v
      → ((t : ℕ) → on tl t w ≡ on tl t v)
      → Balanced tl s0 s w
  Balanced-same s v w b same = record {
    num = b.num;
    cur = b.cur;
    current = b.current;
    states = b.states;
    conserve = λ t. rw (same t) (b.conserve t);
    home = b.home;
    away = λ t h. b.away t (rw (same t) at h);
    kept = b.kept;
    ipi = b.ipi;
  }

  -- A queue `q` gives a thread to the victims, or takes one from them, on the processor that runs.
  pub Balanced-own :
      (s : Smp L) (v w q : L)
      → Balanced tl s0 s v
      → s0.curcpu < s0.num_cpus
      → ((t : ℕ) → on tl t q + on tl t w ≡ on tl t (s.c_runqueue s0.curcpu) + on tl t v)
      → Balanced tl s0 (record s { c_runqueue = write s0.curcpu q s.c_runqueue }) w
  Balanced-own s v w q b low moved =
      let here : (t : ℕ)
          → 0 < on tl t (s.c_runqueue s0.curcpu) + on tl t v
          → s.t_cpu t ≡ s0.curcpu =
        λ t h. elim (Bool-cases (on tl t v == 0)) [
          | inl e ↦ b.home t s0.curcpu low (ground arith)
          | inr e ↦ b.away t (ground arith)
        ] in
      record {
        num = b.num;
        cur = b.cur;
        current = b.current;
        states = b.states;
        conserve = λ t. omega (
          arith,
          b.conserve t,
          moved t,
          total-write tl s.c_runqueue s0.num_cpus t s0.curcpu q low,
        );
        home = λ t c lc h. elim (Bool-cases (c == s0.curcpu)) [
          | inl e ↦
              let z : c ≡ s0.curcpu = ground arith in
              let h' : 0 < on tl t q = rw e at h in rw z (here t (omega (arith, moved t, h')))
          | inr e ↦ b.home t c lc (rw e at h)
        ];
        away = λ t h. here t (omega (arith, moved t, h));
        kept = b.kept;
        ipi = b.ipi;
      }

  -- The same with the processor named by the state.
  pub Balanced-here :
      (s : Smp L) (v w q : L)
      → Balanced tl s0 s v
      → s0.curcpu < s0.num_cpus
      → ((t : ℕ) → on tl t q + on tl t w ≡ on tl t (s.c_runqueue s.curcpu) + on tl t v)
      → Balanced tl s0 (record s { c_runqueue = write s.curcpu q s.c_runqueue }) w
  Balanced-here s v w q b low moved =
      subst (λ c. Balanced tl s0 (record s { c_runqueue = write c q s.c_runqueue }) w) (sym b.cur)
        (Balanced-own s v w q b low (
          subst (λ c. (t : ℕ) → on tl t q + on tl t w ≡ on tl t (s.c_runqueue c) + on tl t v) b.cur
            moved))

  -- A victim goes to the queue of another processor.
  pub Balanced-send :
      (s : Smp L) (v rest : L) (t c : ℕ)
      → Balanced tl s0 s v
      → ((x : ℕ) → total tl s0.c_runqueue s0.num_cpus x ≤ 1)
      → c < s0.num_cpus
      → t ≢ curthread s0
      → tl.remhead v ≡ some (t, rest)
      → Balanced tl s0
          (record s {
            t_cpu = write t c s.t_cpu;
            c_runqueue = write c (tl.addtail (s.c_runqueue c) t) s.c_runqueue;
          })
          rest
  Balanced-send s v rest t c b once low ne h =
      let one = once t in
      let all = b.conserve t in
      let gone = on-remhead tl laws t t v rest h in
      let self = ==_refl t in
      record {
        num = b.num;
        cur = b.cur;
        current = b.current;
        states = b.states;
        conserve = λ x. omega (
          arith,
          b.conserve x,
          on-remhead tl laws x t v rest h,
          on-addtail tl laws x t (s.c_runqueue c),
          total-write tl s.c_runqueue s0.num_cpus x c (tl.addtail (s.c_runqueue c) t) low,
        );
        home = λ x d ld hx. elim (Bool-cases (d == c)) [
          | inl e ↦
              let z : d ≡ c = ground arith in
              let hx' : 0 < on tl x (tl.addtail (s.c_runqueue c) t) = rw e at hx in
              elim (Bool-cases (x == t)) [
                | inl f ↦ rw f (sym z)
                | inr f ↦
                    let there : 0 < on tl x (s.c_runqueue c) =
                      ground (arith, on-addtail tl laws x t (s.c_runqueue c)) in
                    rw f (b.home x c low there ∙ sym z)
              ]
          | inr e ↦
              let hx' : 0 < on tl x (s.c_runqueue d) = rw e at hx in
              elim (Bool-cases (x == t)) [
                | inl f ↦
                    let z : x ≡ t = ground arith in
                    let also : 0 < on tl t (s.c_runqueue d) = rw z at hx' in
                    let most = on_le_total tl s.c_runqueue s0.num_cpus t d ld in
                    absurd (ground arith)
                | inr f ↦ rw f (b.home x d ld hx')
              ]
        ];
        away = λ x hx. elim (Bool-cases (x == t)) [
          | inl f ↦
              let z : x ≡ t = ground arith in
              let also : 0 < on tl t rest = rw z at hx in absurd (ground arith)
          | inr f ↦
              let there : 0 < on tl x v = omega (arith, hx, on-remhead tl laws x t v rest h) in
              rw f (b.away x there)
        ];
        kept = let e : (curthread s0 == t) ≡ false = ground arith in rw e b.kept;
        ipi = b.ipi;
      }
