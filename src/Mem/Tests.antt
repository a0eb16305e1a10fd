-- ===== src/Mem/Tests.antt =====
-- Copies of a string by evaluation.
use ckit.Base.{ℕ, ◌+◌, panic, ◌≡◌, refl, none, some, [], ◌∷◌, ◌++◌, codes, replicate, ret, fault}
use ckit.Base.Buffer.{poke}
use ckit.Mem.{memdup2, memstrdup}
use ckit.Mem.Wrapper.{System, libc, invalid, wrapper, memalloc, mem_sync_wrapper, syncw_alloc}

copied : memstrdup (λ n. some (replicate n 7)) (codes "abc") ≡ ret (codes "abc" ++ 0 ∷ [])
unfolding memstrdup memdup2 poke
copied = refl

no_memory : memstrdup (λ n. none) (codes "abc") ≡ fault
unfolding memstrdup memdup2
no_memory = refl

-- A heap that only grows.
abbrev heap : System ℕ
heap = record {
  calloc = λ n top. (some top, top + n);
  resize = λ p n top. (some top, top + n);
  release = λ p top. top;
}

wrapped : mem_sync_wrapper heap 72 libc 4096 ≡ ret (wrapper libc, 4096, 4168)
unfolding mem_sync_wrapper memalloc
wrapped = refl

through_wrapper : memalloc heap (wrapper libc) 8 4168 ≡ fault
unfolding memalloc syncw_alloc
through_wrapper = refl

wrapped_invalid : mem_sync_wrapper heap 72 invalid 4096 ≡ panic
unfolding mem_sync_wrapper memalloc
wrapped_invalid = refl
