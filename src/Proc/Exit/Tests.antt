-- ===== src/Proc/Exit/Tests.antt =====
-- A shell and its child that exits, for kernel/exit.c.
use minix_rv.Prelude.{ℕ, ◌+◌, ◌-◌, ◌^◌, pos, negsuc, to_int, ◌<◌, ◌≡◌, ◌≢◌, refl, some, arith}
use minix_rv.Proc.Process.{Kernel, init_task, get_current, release_task}
use minix_rv.Proc.Exit.{returned, do_exit, wait_pass}
use minix_rv.Proc.Exit.Reparent.{IsFamily}
use minix_rv.Proc.Exit.Exited.{Exited, do_exit-Exited}
use minix_rv.Proc.Exit.Release.{Released, release_task-Released}
use minix_rv.Proc.Exit.Wait.{wait_pass-do_exit}
use minix_rv.Proc.Fork.Tests.{running_as, endless}

running-IsFamily : (p : ℕ) → IsFamily (running_as p).procs
running-IsFamily p = record { named = λ q r h. ground arith; once = λ q r. ground arith }

not_init : (p : ℕ) → p < 64 → get_current (running_as p) ≢ init_task
unfolding get_current
not_init p h = ground arith

-- A code of more than 32 bits is cut, and its bit 31 is the sign.
cut : (to_int (pos (2 ^ 32 + 5)) ≡ pos 5) × (to_int (pos (2 ^ 32 - 1)) ≡ negsuc 0)
unfolding to_int
cut = (refl, refl)

do_exit-Exited_example :
    (k' : Kernel ℕ) × (do_exit (pos 256) (running_as 0) ≡ some k')
    × Exited (get_current (running_as 0)) (to_int (pos 256)) (running_as 0) k'
do_exit-Exited_example =
    do_exit-Exited (pos 256) (running_as 0) (running-IsFamily 0) (not_init 0 (omega arith))

second : get_current (running_as 1) ≡ 1
unfolding get_current
second = refl

wait_pass-do_exit_example :
    (k' : Kernel ℕ) × (do_exit (pos 256) (running_as 1) ≡ some k')
    × (wait_pass endless 0 (pos 2) 0 k'
        ≡ returned
            (pos 2)
            (some (to_int (pos 256)))
            (release_task endless (get_current (running_as 1)) k'))
wait_pass-do_exit_example =
    wait_pass-do_exit endless (pos 256) (running_as 1) (running-IsFamily 1) 0 2 0
      (not_init 1 (omega arith)) (omega (arith, second)) (rw second (omega arith)) (omega arith)
      (rw second refl) only_second
  where
    only_second : (c : ℕ) → ((running_as 1).procs c).pid ≡ pos 2 → c ≡ get_current (running_as 1)
    only_second c h = rw second (ground arith)

release_task-Released_example : Released 1 2 (running_as 0) (release_task endless 1 (running_as 0))
release_task-Released_example =
    release_task-Released endless 1 2 (running_as 0) (running-IsFamily 0) refl refl (omega arith)
      λ a b h i. ground arith
