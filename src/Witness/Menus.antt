-- ===== src/Witness/Menus.antt =====
-- A table of a heading and two commands, which count how often they ran.
use paging_os.Base.{ℕ, ◌+◌, ◌<◌, ◌≤◌, ◌≡◌, ◌≢◌, List, [], ◌∷◌, some, none, length, get_elem?}
use paging_os.Machine.{ok, Cmd, pure, modify, ◌>>◌}
use paging_os.Menu.{Command, MenuResult, fine, e2big, invalid, cmd_dispatch, max_menu_args}
use paging_os.Menu.Dispatched.{FirstMatch, cmd_dispatch-Dispatched}

abbrev counter : List (Command ℕ)
counter =
    record { name = []; func = none }
    ∷ record { name = 112 ∷ []; func = some (λ args. modify (λ n. n + length args) >> pure fine) }
    ∷ record { name = 115 ∷ []; func = some (λ args. pure invalid) }
    ∷ []

abbrev typed : List (List ℕ)
typed = (112 ∷ []) ∷ (116 ∷ 49 ∷ []) ∷ []

cmd_dispatch-Dispatched_example :
    (max_menu_args < length typed → cmd_dispatch counter typed 0 ≡ ok e2big 0)
    × (typed ≡ [] → cmd_dispatch counter typed 0 ≡ ok fine 0)
    × ((first : List ℕ) (rest : List (List ℕ))
        → typed ≡ first ∷ rest
        → first ≢ []
        → length typed ≤ max_menu_args
        → ((i : ℕ) (c : Command ℕ) (f : List (List ℕ) → Cmd ℕ MenuResult)
            → FirstMatch counter first i c
            → c.func ≡ some f
            → cmd_dispatch counter typed 0 ≡ f typed 0)
          × (((i : ℕ) (c : Command ℕ) → get_elem? counter i ≡ some c → c.name ≢ first)
              → cmd_dispatch counter typed 0 ≡ ok invalid 0))
cmd_dispatch-Dispatched_example = cmd_dispatch-Dispatched counter typed 0
