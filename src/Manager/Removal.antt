-- ===== src/Manager/Removal.antt =====
-- What the removal of zombies leaves (client/manager.cpp, remove_zombies).
use roq_fix_proxy.Prelude.{
  ℕ, ◌≡◌, refl, ◌∙◌, Bool, false, ◌||◌, none, List, [], ◌∷◌, arith, ltb, nat_beq, nat_eq,
  if◌then◌else◌,
}
use roq_fix_proxy.Prelude.Map.{Map, find, erase, find-erase}
use roq_fix_proxy.Prelude.Effect.{ok}
use roq_fix_proxy.World.{World, ClientSession}
use roq_fix_proxy.Manager.{erase_all, remove_zombies}

abbrev pub listed : ℕ → List ℕ → Bool
listed id [] = false
listed id (i ∷ rest) = nat_beq i id || listed id rest

pub find-erase_all :
    (ids : List ℕ) (id : ℕ) (m : Map ℕ ClientSession)
    → find id (erase_all ids m) ≡ (if listed id ids then none else find id m)
unfolding erase_all
find-erase_all [] id m = refl
find-erase_all (i ∷ rest) id m =
    find-erase_all rest id (erase i m) ∙ ground (arith, find-erase i id m)

-- Once the time for it has come, the removal returns, takes out of the store exactly the sessions that
-- wait for it, and none waits for it afterwards.
pub remove_zombies-Exact :
    (now : ℕ) (w : World) (id : ℕ)
    → ltb now w.next_garbage_collection ≡ false
    → ((remove_zombies now w).0 ≡ ok tt)
      × (find id (remove_zombies now w).1.sessions
          ≡ (if listed id w.shared.sessions_to_remove then none else find id w.sessions))
      × ((remove_zombies now w).1.shared.sessions_to_remove ≡ [])
unfolding remove_zombies
remove_zombies-Exact now w id due =
    rw (due, remove_zombies) (refl, find-erase_all w.shared.sessions_to_remove id w.sessions, refl)
