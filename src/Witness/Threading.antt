-- ===== src/Witness/Threading.antt =====
-- Two processors, with lists of threads that are plain lists: processor 0 runs thread 10 and has threads 11,
-- 12 and 13 in its queue, and processor 1 is idle.
use paging_os.Base.{
  ℕ, ◌+◌, ◌*◌, ◌<◌, ◌≡◌, refl, true, false, Option, none, some, Option-cases, inl, inr, arith, ◌==◌,
  if◌then◌else◌, List, occ, Bool-cases, [], ◌∷◌, ◌++◌, length,
}
use paging_os.Machine.{ok, pure, ◌>>◌, ◌>>=◌, success}
use paging_os.Machine.Threadlists.{ThreadlistOps, ThreadlistLaws}
use paging_os.Thread.{Smp, ThreadState, s_run, s_ready, s_sleep, curthread}
use paging_os.Thread.Ipi.{IpiCodes, ipi_tlbshootdown, ipi_broadcast}
use paging_os.Thread.Queue.{Wchan, wchan_wakeall}
use paging_os.Thread.Switch.{switched, switch_end, thread_switch, thread_fork}
use paging_os.Thread.Migrate.{thread_consider_migration}
use paging_os.Thread.Balance.{total}
use paging_os.Thread.Spread.{RunQueuesOk, thread_consider_migration-RunQueuesOk}
use paging_os.Thread.Fifo.{thread_switch-Switched}
use paging_os.Thread.Waking.{Woken}
use paging_os.Thread.Wakeall.{wchan_wakeall-Woken}
use paging_os.Thread.Shootdown.{Broadcast, ipi_broadcast-Broadcast}
use paging_os.Thread.Forking.{Forked, thread_fork-Forked}

abbrev head_of : List ℕ → Option (ℕ × List ℕ)
head_of [] = none
head_of (t ∷ l) = some (t, l)

abbrev last_of : List ℕ → Option (ℕ × List ℕ)
last_of [] = none
last_of (t ∷ l) = elim (last_of l) [ none ↦ some (t, []) | some (x, rest) ↦ some (x, t ∷ rest) ]

abbrev pub lists : ThreadlistOps (List ℕ)
lists = record {
  init = [];
  addhead = λ l t. t ∷ l;
  addtail = λ l t. l ++ t ∷ [];
  remhead = head_of;
  remtail = last_of;
  tl_count = length;
  threads = λ l. l;
}

head_none : (l : List ℕ) → head_of l ≡ none → l ≡ []
head_none [] h = refl
head_none (t ∷ l) h = absurd (cc h)

head_some : (l l' : List ℕ) (t : ℕ) → head_of l ≡ some (t, l') → l ≡ t ∷ l'
head_some [] l' t h = absurd (cc h)
head_some (x ∷ l) l' t h = cc h

last_none : (l : List ℕ) → last_of l ≡ none → l ≡ []
last_none [] h = refl
last_none (t ∷ l) h = elim (Option-cases (last_of l)) [
  | inl e ↦ absurd (cc (rw e at h))
  | inr ((x, rest), e) ↦ absurd (cc (rw e at h))
]

last_some : (l l' : List ℕ) (t : ℕ) → last_of l ≡ some (t, l') → l ≡ l' ++ t ∷ []
last_some [] l' t h = absurd (cc h)
last_some (x ∷ l) l' t h = elim (Option-cases (last_of l)) [
  | inl e ↦
      let z = last_none l e in
      let h' = rw e at h in let p : l' ≡ [] = cc h' in let q : x ≡ t = cc h' in rw (z, p, q) refl
  | inr ((y, rest), e) ↦
      let ih = last_some l rest y e in
      let h' = rw e at h in
      let p : l' ≡ x ∷ rest = cc h' in let q : y ≡ t = cc h' in rw (ih, p, q) refl
]

lists_laws : ThreadlistLaws lists
lists_laws = record {
  threads-init = refl;
  threads-addhead = λ l t. refl;
  threads-addtail = λ l t. refl;
  remhead-none = head_none;
  remhead-some = head_some;
  remtail-none = last_none;
  remtail-some = last_some;
  count = λ l. refl;
}

abbrev pub codes_used : IpiCodes
codes_used = record {
  ipi_panic = 0;
  ipi_offline = 1;
  ipi_unidle = 2;
  ipi_tlbshootdown = 3;
  tlbshootdown_max = 16;
}

abbrev queue_of : ℕ → List ℕ
queue_of c = if c == 0 then 11 ∷ 12 ∷ 13 ∷ [] else []

abbrev state_of : ℕ → ThreadState
state_of t =
    if t == 10 then s_run else if t == 20 then s_sleep else if t == 21 then s_sleep else s_ready

abbrev pub machine : Smp (List ℕ)
machine = record {
  num_cpus = 2;
  curcpu = 0;
  c_curthread = λ c. 10 + c * 10;
  c_zombies = λ c. [];
  c_isidle = λ c. c == 1;
  c_runqueue = queue_of;
  c_runqueue_lock = λ c. false;
  c_ipi_pending = λ c. 0;
  c_shootdown = λ c. [];
  c_ipi_lock = λ c. false;
  t_state = state_of;
  t_stack = λ t. t * 4096;
  t_cpu = λ t. if t == 20 then 1 else 0;
  t_proc = λ t. 1;
  t_in_interrupt = λ t. false;
  t_curspl = λ t. 0;
  t_iplhigh_count = λ t. 0;
  p_numthreads = λ p. 4;
  sent = [];
}

machine-RunQueuesOk : RunQueuesOk lists machine
machine-RunQueuesOk = record {
  once = λ t. ground arith;
  home = λ t c low h. elim (Bool-cases (c == 0)) [
    | inl e ↦
        let z : c ≡ 0 = ground arith in
        let h' : 0 < occ t (11 ∷ 12 ∷ 13 ∷ []) = rw e at h in
        let ne : (t == 20) ≡ false = ground arith in rw (z, ne) refl
    | inr e ↦ absurd (omega (arith, rw e at h))
  ];
  queues_free = λ c. refl;
  ipis_free = λ c. refl;
}

thread_consider_migration-RunQueuesOk_example :
    (s' : Smp (List ℕ)) × (thread_consider_migration lists codes_used machine ≡ ok tt s')
    × RunQueuesOk lists s'
    × ((t : ℕ)
        → total lists s'.c_runqueue s'.num_cpus t
          ≡ total lists machine.c_runqueue machine.num_cpus t)
    × (s'.t_cpu (curthread s') ≡ machine.t_cpu (curthread machine))
    × (s'.t_state ≡ machine.t_state)
thread_consider_migration-RunQueuesOk_example =
    thread_consider_migration-RunQueuesOk lists lists_laws codes_used machine machine-RunQueuesOk
      (omega arith) (omega arith)

abbrev channel : Wchan (List ℕ)
channel = record { wc_threads = 20 ∷ 21 ∷ []; held = true }

thread_switch-Switched_example :
    (wc' : Wchan (List ℕ)) × (s' : Smp (List ℕ)) × ((thread_switch lists codes_used s_sleep channel
          >>= λ r. switch_end lists >> pure r)
        machine
      ≡ ok (wc', switched 11) s')
    × (curthread s' ≡ 11)
    × (s'.t_state 11 ≡ s_run)
    × (s'.t_state 10 ≡ s_sleep)
    × (s'.c_runqueue 0 ≡ 12 ∷ 13 ∷ [])
    × (wc'.wc_threads ≡ 20 ∷ 21 ∷ 10 ∷ [])
    × (s'.c_zombies 0 ≡ [])
    × (s'.c_runqueue_lock 0 ≡ false)
thread_switch-Switched_example =
    thread_switch-Switched lists lists_laws codes_used s_sleep channel machine 11 (12 ∷ 13 ∷ [])
      (λ e. absurd (cc e)) refl refl refl refl
      (record {
        dead = λ t h. absurd (omega arith);
        alone = λ t h. absurd (omega arith);
        not_current = refl;
      })
      refl refl (λ e. absurd (cc e))

wchan_wakeall-Woken_example :
    (wc' : Wchan (List ℕ)) × (s' : Smp (List ℕ)) × (wchan_wakeall lists codes_used channel machine
      ≡ ok wc' s')
    × (wc'.wc_threads ≡ [])
    × Woken lists (20 ∷ 21 ∷ []) machine s'
wchan_wakeall-Woken_example =
    wchan_wakeall-Woken lists lists_laws codes_used channel machine refl (omega arith) (λ c. refl)
      (λ c. refl)

ipi_broadcast-Broadcast_example :
    (s' : Smp (List ℕ)) × (ipi_broadcast 1 machine ≡ ok tt s') × Broadcast 1 2 machine s' 0
ipi_broadcast-Broadcast_example = ipi_broadcast-Broadcast 1 machine (omega arith) (λ c. refl)

thread_fork-Forked_example :
    (s' : Smp (List ℕ)) × ((thread_fork lists codes_used 30 true 4096 0 machine ≡ ok success s')
      × Forked lists 30 4096 0 machine s')
thread_fork-Forked_example =
    thread_fork-Forked lists lists_laws codes_used 30 4096 0 true machine (ground arith)
      (omega arith) (λ c. refl) (λ c. refl)
