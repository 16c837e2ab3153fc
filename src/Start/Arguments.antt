-- ===== src/Start/Arguments.antt =====
-- What a program that is started finds on its stack.
use paging_os.Base.{
  ℕ, ◌+◌, ◌-◌, ◌*◌, ◌%◌, ◌<◌, ◌≤◌, ◌≡◌, refl, ◌∙◌, Bool, false, Option, some, List, ◌==◌, get_elem?,
  get_elem?-lt, length, write, arith, ==_refl,
}
use paging_os.Machine.{u32, ok, success}
use paging_os.Machine.Platform.{TlbOps, BitmapOps, WorldOps}
use paging_os.Kernel.{Kernel}
use paging_os.Loader.{ElfOps}
use paging_os.Clone.{Creation}
use paging_os.Life.{userstack}
use paging_os.Start.{
  UserOps, UserLaws, Works, Pushed, pushed, push_strings, push_words, push_args, entered,
  load_program, runprogram_with_args,
}
use paging_os.Start.Strings.{room, Strings, Strings-above, push_strings-Strings}
use paging_os.Start.Words.{WordAt, push_words-Words}

module _ {S : Type 0} (ops : UserOps S) where
  -- argv, the strings above it and the NULL at its end.
  pub record ArgsOnStack (args : List (Option (List ℕ))) (top argv : ℕ) (addrs : ℕ → ℕ) (s : S)
      : Type 0 where
    pub strings : Strings ops args top 0 (argv + 4 * (length args + 1)) addrs s
    pub pointers : (j : ℕ) → j < length args → WordAt ops s (argv + 4 * j) (addrs j)
    pub terminator : WordAt ops s (argv + 4 * length args) 0
    pub aligned : argv % 4 ≡ 0
    pub used : argv + 4 * (length args + 1) + room args (length args) ≡ top

module _ {S : Type 0} (ops : UserOps S) (laws : UserLaws ops) (works : Works ops) where
  nothing_yet :
      (args : List (Option (List ℕ))) (top : ℕ) (addrs : ℕ → ℕ) (s : S)
      → Strings ops args top (length args) top addrs s
  nothing_yet args top addrs s = record {
    low = λ j str lo h. let out = get_elem?-lt args j h in absurd (omega arith);
    high = λ j str lo h. let out = get_elem?-lt args j h in absurd (omega arith);
    aligned = λ j str lo h. let out = get_elem?-lt args j h in absurd (omega arith);
    order = λ j l str u lo lt h k. let out = get_elem?-lt args j h in absurd (omega arith);
    there = λ j str lo h. let out = get_elem?-lt args j h in absurd (omega arith);
  }

  push_args-run :
      (args : List (Option (List ℕ))) (top p : ℕ) (garbage addrs : ℕ → ℕ) (s s1 s2 : S) (r : Pushed)
      → push_strings ops args (length args) top garbage s ≡ ok (pushed p addrs) s1
      → push_words ops (length args + 1) p (write (length args) 0 addrs) s1 ≡ ok r s2
      → push_args ops args top garbage s ≡ ok r s2
  unfolding push_args
  push_args-run args top p garbage addrs s s1 s2 r strings words = rw (push_args, strings) words

  push_args-ArgsOnStack :
      (args : List (Option (List ℕ))) (top : ℕ) (garbage : ℕ → ℕ) (s : S)
      → ((j : ℕ) → j < length args → (str : List ℕ) × (get_elem? args j ≡ some (some str)))
      → top < u32
      → top % 4 ≡ 0
      → room args (length args) + 4 * (length args + 1) ≤ top
      → (argv : ℕ) × (addrs rest : ℕ → ℕ) × (s' : S) × (push_args ops args top garbage s
          ≡ ok (pushed argv rest) s')
        × ArgsOnStack ops args top argv addrs s'
  push_args-ArgsOnStack args top garbage s all small align fits =
      let n = length args in
      let (r, s1, pushed_strings, done, goes) =
        push_strings-Strings ops laws args top n top garbage s all (omega arith)
          (nothing_yet args top garbage s) (omega arith) small (omega arith) align in
      let (p, addrs, eq) = goes works in
      let (strings, used, at_four) = done p addrs eq in
      let (q, s2, pushed_words, finished, goes_on) =
        push_words-Words ops laws (n + 1) p (write n 0 addrs) s1 (omega arith) (omega arith) in
      let (argv, rest, eq') = goes_on works in
      let w = finished argv rest eq' in
      let moved = w.moved in
      let self = ==_refl n in
      (
        argv,
        addrs,
        rest,
        s2,
        push_args-run args top p garbage addrs s s1 s2 (pushed argv rest)
            (pushed_strings ∙ rw eq refl) (pushed_words ∙ rw eq' refl),
        record {
          strings = rw moved (Strings-above ops args top p addrs s1 s2 strings w.above);
          pointers =
              λ j lt. let e : (j == n) ≡ false = ground arith in rw e at (w.words j (omega arith));
          terminator = rw self at (w.words n (omega arith));
          aligned = omega arith;
          used = omega arith;
        },
      )

module _ {T B W : Type 0} (tlb : TlbOps T) (bits : BitmapOps B) (wld : WorldOps W) (elf : ElfOps W)
    (user : UserOps (Kernel T B W)) where
  runprogram_with_args-run :
      (args : List (Option (List ℕ))) (garbage addrs : ℕ → ℕ) (c : Creation) (allocated : ℕ → Bool)
      (stack_allocated : Bool) (k k1 k2 : Kernel T B W) (entrypoint argv : ℕ)
      → load_program tlb bits wld elf c allocated stack_allocated k ≡ ok (success, entrypoint) k1
      → push_args user args userstack garbage k1 ≡ ok (pushed argv addrs) k2
      → runprogram_with_args tlb bits wld elf user args garbage c allocated stack_allocated k
        ≡ ok (entered (length args) argv 0 (argv - argv % 8) entrypoint) k2
  unfolding runprogram_with_args
  runprogram_with_args-run args garbage addrs c allocated stack_allocated k k1 k2 entrypoint argv
        loaded done =
      rw (runprogram_with_args, loaded, done) refl

  -- runprogramWithArgs, with a program that can be loaded, a stack that is there, no NULL among the arguments
  -- and room for them below USERSTACK, enters the program with all arguments: argc is their number, and
  -- argv points to a word for each, which points to a copy of the argument with its terminator, and to a
  -- NULL after these. The copies stand above the array and below USERSTACK, in the order of the arguments,
  -- without overlaps, at multiples of 4. The stack pointer is a multiple of 8 right below argv.
  pub runprogram_with_args-ArgsOnStack :
      UserLaws user
      → Works user
      → (args : List (Option (List ℕ))) (garbage : ℕ → ℕ) (c : Creation) (allocated : ℕ → Bool)
        (stack_allocated : Bool) (k k1 : Kernel T B W) (entrypoint : ℕ)
      → load_program tlb bits wld elf c allocated stack_allocated k ≡ ok (success, entrypoint) k1
      → ((j : ℕ) → j < length args → (str : List ℕ) × (get_elem? args j ≡ some (some str)))
      → room args (length args) + 4 * (length args + 1) ≤ userstack
      → (argv sp : ℕ) × (addrs : ℕ → ℕ) × (k2 : Kernel T B W) × (runprogram_with_args tlb bits wld
            elf user args garbage c allocated stack_allocated k
          ≡ ok (entered (length args) argv 0 sp entrypoint) k2)
        × ArgsOnStack user args userstack argv addrs k2
        × (sp % 8 ≡ 0)
        × (sp ≤ argv)
        × (argv < sp + 8)
  runprogram_with_args-ArgsOnStack laws works args garbage c allocated stack_allocated k k1
        entrypoint loaded all fits =
      let (argv, addrs, rest, k2, run, on_stack) =
        push_args-ArgsOnStack user laws works args userstack garbage k1 all (omega arith)
          (omega arith) fits in
      (
        argv,
        argv - argv % 8,
        addrs,
        k2,
        runprogram_with_args-run args garbage rest c allocated stack_allocated k k1 k2 entrypoint
            argv loaded run,
        on_stack,
        omega arith,
        omega arith,
        omega arith,
      )
