-- ===== src/Proc/Cache/Tests.antt =====
-- The cache of kernel/fork.c with two slots in use, and the theorem at it.
use minix_rv.Prelude.{◌≡◌, refl, [], some}
use minix_rv.Proc.Word.{test_bit}
use minix_rv.Proc.Cache.{TaskCache, alloc_task_struct, free_slot, find_task_by_pid, find_task_from}

abbrev two_used : TaskCache
two_used = record { task_cache = λ i. []; task_cache_bitmap = 3 }

third : (alloc_task_struct 8 two_used).0 ≡ some 2
unfolding alloc_task_struct free_slot test_bit
third = refl

found : find_task_by_pid (λ i. some i) 5 ≡ some 5
unfolding find_task_by_pid find_task_from
found = refl
