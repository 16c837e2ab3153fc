-- ===== src/Menu.antt =====
-- kern/main/menu.c: the command line of the kernel menu, and the commands that run a program.
pub mod Dispatched
use paging_os.Base.{
  ℕ, zero, suc, ◌+◌, Bool, true, false, not, ◌&&◌, Option, none, some, List, [], ◌∷◌, ◌++◌, ◌==◌,
  if◌then◌else◌, leb, ltb, length,
}
use paging_os.Machine.{
  Cmd, pure, fail, get, kassert, ◌>>=◌, ◌>>◌, panicked, assertion, Status, success, err, enomem,
  einval,
}
use paging_os.Machine.Threadlists.{ThreadlistOps}
use paging_os.Synch.{Semaphore}
use paging_os.Proc.{ProcOps, proc_create_runprogram, proc_destroy, proc_wait}
use paging_os.Thread.Ipi.{IpiCodes}
use paging_os.Thread.Switch.{thread_fork}
use paging_os.Fork.{Whole, in_procs, in_smp}

-- A string is the list of its bytes. strcmp(a, b) == 0
abbrev pub same : (a b : List ℕ) → Bool
same [] [] = true
same [] (_ ∷ _) = false
same (_ ∷ _) [] = false
same (x ∷ a) (y ∷ b) = (x == y) && same a b

-- What a command returns: 0 and the error codes that the menu itself gives, and others as they are.
pub data MenuResult : Type 0 where
  fine : MenuResult
  e2big : MenuResult
  invalid : MenuResult
  code : (e : Status) → MenuResult

-- MAXMENUARGS
abbrev pub max_menu_args : ℕ
max_menu_args = 16

-- An entry of cmdtable before the NULL at its end: a heading has the empty name.
pub record Command (S : Type 0) : Type 0 where
  pub name : List ℕ
  pub func : Option (List (List ℕ) → Cmd S MenuResult)

-- The loop over the words; none if there are too many.
unfoldable pub collect : (words args : List (List ℕ)) → Option (List (List ℕ))
collect [] args = some args
collect (word ∷ words) args =
    if leb max_menu_args (length args) then none else collect words (args ++ word ∷ [])

abbrev pub is_fine : MenuResult → Bool
is_fine fine = true
is_fine e2big = false
is_fine invalid = false
is_fine (code success) = true
is_fine (code (err _)) = false

module _ {S : Type 0} where
  -- The loop over cmdtable, with the first word of the line.
  unfoldable pub find_command :
      (table : List (Command S)) → (first : List ℕ) → (args : List (List ℕ)) → Cmd S MenuResult
  find_command [] first args = pure invalid
  find_command (c ∷ table) first args =
      if not (same c.name []) && same first c.name
      then elim c.func [ none ↦ fail assertion | some f ↦ f args ]
      else find_command table first args

  -- cmd_dispatch, with the words that strtok_r finds in the command
  unfoldable pub cmd_dispatch :
      (table : List (Command S)) → (words : List (List ℕ)) → Cmd S MenuResult
  unfolding find_command collect
  cmd_dispatch table words = elim (collect words []) [
    | none ↦ pure e2big
    | some [] ↦ pure fine
    | some (first ∷ args) ↦ find_command table first (first ∷ args)
  ]

  -- menu_execute, with the words of each command that strtok_r finds in the line
  unfoldable pub menu_execute :
      (table : List (Command S))
      → (isargs : Bool) → (line : List (List (List ℕ))) → Cmd S (Unit {0})
  menu_execute table isargs [] = pure tt
  menu_execute table isargs (words ∷ line) = do
    result ← cmd_dispatch table words
    if not (is_fine result) && isargs then fail panicked else menu_execute table isargs line

-- What the allocations of common_prog give.
pub record ProgAllocations : Type 0 where
  pub newproc : ℕ
  pub name_ok : Bool
  pub sem : Option Semaphore
  pub newthread : ℕ
  pub thread_name_ok : Bool
  pub stack : ℕ

module _ {W V T B D L : Type 0} (ops : ProcOps V) (tl : ThreadlistOps L) (codes : IpiCodes) where
  -- common_prog up to proc_wait, and proc_wait: `none` if the menu sleeps there.
  unfoldable pub common_prog : (a : ProgAllocations) → Cmd (Whole W V T B D L) (Option MenuResult)
  common_prog a = do
    proc ← in_procs (proc_create_runprogram ops a.newproc a.name_ok a.sem)
    if proc == 0 then pure (some (code (err enomem))) else do
      result ← in_smp (thread_fork tl codes a.newthread a.thread_name_ok a.stack proc)
      elim result [
        | err e ↦ do in_procs (proc_destroy ops proc); pure (some (code (err e)))
        | success ↦ do
          status ← in_procs (proc_wait ops proc)
          elim status [ none ↦ pure none | some _ ↦ pure (some fine) ]
      ]

  -- cmd_prog. The strings that the thread gets, args + 1, are not part of the state.
  unfoldable pub cmd_prog :
      (a : ProgAllocations) → (args : List (List ℕ)) → Cmd (Whole W V T B D L) (Option MenuResult)
  unfolding common_prog
  cmd_prog a args = if ltb (length args) 2 then pure (some invalid) else common_prog a

  -- cmd_shell, which puts the path of the shell into args[0]
  unfoldable pub cmd_shell :
      (a : ProgAllocations) → (args : List (List ℕ)) → Cmd (Whole W V T B D L) (Option MenuResult)
  unfolding common_prog
  cmd_shell a args = if not (length args == 1) then pure (some invalid) else common_prog a
