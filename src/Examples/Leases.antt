-- ===== src/Examples/Leases.antt =====
-- Two workers at one directory.
use super_brain.Prelude.{ℕ, ◌+◌, ◌≡◌, refl, false, none, some}
use super_brain.Worker.Lease.{
  starting, inspecting, reclaiming, checking, probing, removing, finishing, owning, dead, Directory,
  move, create, inspect, probe, recover, check, probe_again, remove, finish, die, Reaches, here,
  then_step,
}
use super_brain.Worker.Lease.Exclusion.{Reaches-exclusive, is_holding}
use super_brain.Worker.Lease.Abandoned.{Reaches-IsAbandoned}

abbrev fresh : Directory
fresh = record { lease = none; recovery = none; phase = λ _. starting 0 }

-- Worker 0 takes the lease and dies; worker 1 finds it dead and makes the recovery file.
abbrev left : Directory
left = move 0 dead (record (move 0 owning fresh) { lease = some 0 })

abbrev recovering : Directory
recovering =
    record (move 1 (checking 0 0) (move 1 (reclaiming 0 0) (move 1 (inspecting 0 0) left))) {
      recovery = some 1;
    }

abbrev removable : Directory
removable = move 1 (removing 0 0) (move 1 (probing 0 0) recovering)

-- Worker 1 goes on and takes the lease.
abbrev taken_over : Directory
taken_over =
    record (move 1 owning
      (record (move 1 (starting (0 + 1))
        (record (move 1 (finishing 0) removable) { lease = none })) { recovery = none })) {
          lease = some 1;
        }

-- Worker 1 dies instead, and worker 2 finds the lease.
abbrev cut_off : Directory
cut_off = move 1 dead recovering

abbrev blocked_again : Directory
blocked_again = move 2 (reclaiming 0 0) (move 2 (inspecting 0 0) cut_off)

to_recovering : Reaches fresh recovering
unfolding move
to_recovering =
    then_step
      (then_step
        (then_step (then_step (then_step here (create 0 0 refl refl)) (die 0))
          (inspect 1 0 0 refl refl refl))
        (probe 1 0 0 refl refl))
      (recover 1 0 0 refl refl)

to_taken_over : Reaches fresh taken_over
unfolding move
to_taken_over =
    then_step
      (then_step
        (then_step
          (then_step (then_step to_recovering (check 1 0 0 refl refl))
            (probe_again 1 0 0 refl refl))
          (remove 1 0 0 refl))
        (finish 1 0 refl))
      (create 1 1 refl refl)

Reaches-exclusive_example : (taken_over.lease ≡ some 1) × (◌≡◌ {A = ℕ} 1 1)
unfolding move
Reaches-exclusive_example =
    Reaches-exclusive fresh taken_over 1 1 (refl, refl, λ i. refl) to_taken_over refl refl

to_blocked_again : Reaches cut_off blocked_again
unfolding move
to_blocked_again = then_step (then_step here (inspect 2 0 0 refl refl refl)) (probe 2 0 0 refl refl)

Reaches-IsAbandoned_example :
    (blocked_again.recovery ≡ some 1)
    × (blocked_again.lease ≡ some 0)
    × (is_holding (blocked_again.phase 2) ≡ false)
unfolding move
Reaches-IsAbandoned_example =
    Reaches-IsAbandoned 1 0 fresh cut_off blocked_again 2 (refl, refl, λ i. refl)
      (then_step to_recovering (die 1)) (refl, refl, refl, refl) to_blocked_again
