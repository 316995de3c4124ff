-- ===== src/Protocol/Quiet.antt =====
-- The memory transfers and the control.
use aurora_mvee.Base.{ℕ, zero, suc, ◌^◌, ◌∙◌, refl, if_rule, arith, ltb, leb, ◌==◌}
use aurora_mvee.Words.{word_size}
use aurora_mvee.Kernel.{Kernel, Addr}
use aurora_mvee.World.{World, Buf, Side, first, second}
use aurora_mvee.World.Monad.{or_else}
use aurora_mvee.Memory.{
  poke, write_loop, read_variant_mem, write_variant_mem, read_into_a, read_into_b,
  transfer_variant_mem, variant_mem_cmp, str_cmp_loop, variant_str_cmp, buf_size, memset_zero,
  strnlen,
}
use aurora_mvee.Protocol.{control, IsPaired, At, Leaves, Keeps}
use aurora_mvee.Protocol.Rules.{
  Keeps-bind, Keeps-or_else, Keeps-pure, Keeps-gets, ◌▸◌, Keeps-require, Keeps-modify,
  Leaves-and_then, Leaves-mono,
}

poke-At : (s : Side) (a v : ℕ) (w : World) → IsPaired w → At (control w) (poke s a v w)
unfolding poke
poke-At first a v w paired = ground arith
poke-At second a v w paired = ground arith

module _ (s : Side) (local : Buf) (remote : Addr) (size : ℕ) where
  write_loop-At :
      (fuel remaining transferred : ℕ) (w : World)
      → IsPaired w
      → At (control w) (write_loop s local remote size fuel remaining transferred w).1
  unfolding write_loop
  write_loop-At zero remaining transferred w paired = (paired, refl)
  write_loop-At (suc fuel) remaining transferred w paired =
      let (paired', at) = poke-At s _ _ w paired in
      let (paired'', at') = write_loop-At fuel _ _ _ paired' in
      if_rule (λ (r : ℕ × World). At (control w) r.1) (remaining == 0) (paired, refl)
        (if_rule (λ (r : ℕ × World). At (control w) r.1) (leb word_size remaining)
          (paired'', at' ∙ at) (poke-At s _ _ w paired))

module _ (k : Kernel) (s : Side) where
  pub read_variant_mem-Keeps :
      (local : Buf) (remote : Addr) (size : ℕ) → Keeps (read_variant_mem k s local remote size)
  unfolding read_variant_mem
  read_variant_mem-Keeps local remote size = record {
    apply = λ w paired.
        if_rule (λ r. Leaves {A = ℕ × Buf} (At (control w)) r) (ltb buf_size size) (paired, refl)
          (paired, refl);
  }

  pub write_variant_mem-Keeps :
      (local : Buf) (remote : Addr) (size : ℕ) → Keeps (write_variant_mem k s local remote size)
  unfolding write_variant_mem
  write_variant_mem-Keeps local remote size = record {
    apply = λ w paired.
        if_rule (λ r. Leaves {A = ℕ} (At (control w)) r) (ltb size word_size)
          (poke-At s _ _ w paired)
          (if_rule (λ r. Leaves {A = ℕ} (At (control w)) r) (ltb size (2 ^ 63))
            (write_loop-At s local remote size size size 0 w paired) (paired, refl));
  }

  read_into_a-Keeps : (remote : Addr) (size : ℕ) → Keeps (read_into_a k s remote size)
  unfolding read_into_a
  read_into_a-Keeps remote size = Keeps-bind (Keeps-gets _) λ local.
      Keeps-bind (read_variant_mem-Keeps local remote size) λ r.
        Keeps-modify (λ w. record w { buf_a = r.1 }) (λ w paired. (paired, refl)) ▸ Keeps-pure r.0

  read_into_b-Keeps : (remote : Addr) (size : ℕ) → Keeps (read_into_b k s remote size)
  unfolding read_into_b
  read_into_b-Keeps remote size = Keeps-bind (Keeps-gets _) λ local.
      Keeps-bind (read_variant_mem-Keeps local remote size) λ r.
        Keeps-modify (λ w. record w { buf_b = r.1 }) (λ w paired. (paired, refl)) ▸ Keeps-pure r.0

module _ (k : Kernel) where
  pub transfer_variant_mem-Keeps :
      (source : Side) (source_buf : Addr) (dest : Side) (dest_buf : Addr) (size : ℕ)
      → Keeps (transfer_variant_mem k source source_buf dest dest_buf size)
  unfolding transfer_variant_mem
  transfer_variant_mem-Keeps source source_buf dest dest_buf size =
      Keeps-require _
      ▸ Keeps-bind (read_into_a-Keeps k source source_buf size) λ read.
        Keeps-require _
        ▸ Keeps-bind (Keeps-gets _) λ local.
          Keeps-bind (write_variant_mem-Keeps k dest local dest_buf size) λ written. Keeps-require _

  pub variant_mem_cmp-Keeps :
      (v1 : Side) (v1_buf : Addr) (v2 : Side) (v2_buf : Addr) (size : ℕ)
      → Keeps (variant_mem_cmp k v1 v1_buf v2 v2_buf size)
  unfolding variant_mem_cmp
  variant_mem_cmp-Keeps v1 v1_buf v2 v2_buf size =
      Keeps-require _
      ▸ Keeps-or_else 0 (read_into_a-Keeps k v1 v1_buf size)
      ▸ Keeps-or_else 0 (read_into_b-Keeps k v2 v2_buf size)
      ▸ Keeps-gets _

  str_cmp_loop-Keeps :
      (v1 : Side) (v1_buf : Addr) (fuel cur_size string_len : ℕ)
      → Keeps (str_cmp_loop k v1 v1_buf fuel cur_size string_len)
  unfolding str_cmp_loop
  str_cmp_loop-Keeps v1 v1_buf zero cur_size string_len = record {
    apply = λ w paired. (paired, refl);
  }
  str_cmp_loop-Keeps v1 v1_buf (suc fuel) cur_size string_len = record {
    apply = λ w paired.
        if_rule (λ r. Leaves {A = ℕ × ℕ} (At (control w)) r) (ltb cur_size buf_size)
          (Leaves-and_then _ _ (or_else 0 (read_into_a k v1 v1_buf cur_size) w) _
            ((Keeps-or_else 0 (read_into_a-Keeps k v1 v1_buf cur_size)).apply w paired) (λ w' h. h)
            λ _ w' (paired', at).
              if_rule (λ r. Leaves {A = ℕ × ℕ} (At (control w)) r)
                (strnlen w'.buf_a 0 cur_size == buf_size) (paired', at)
                (if_rule (λ r. Leaves {A = ℕ × ℕ} (At (control w)) r)
                  (strnlen w'.buf_a 0 cur_size == cur_size)
                  (Leaves-mono _ _ (str_cmp_loop k v1 v1_buf fuel _ _ w')
                    ((str_cmp_loop-Keeps v1 v1_buf fuel _ _).apply w' paired')
                    λ w'' (paired'', at'). (paired'', at' ∙ at))
                  (paired', at)))
          (paired, refl);
  }

  pub variant_str_cmp-Keeps :
      (v1 : Side) (v1_buf : Addr) (v2 : Side) (v2_buf : Addr)
      → Keeps (variant_str_cmp k v1 v1_buf v2 v2_buf)
  unfolding variant_str_cmp
  variant_str_cmp-Keeps v1 v1_buf v2 v2_buf =
      Keeps-modify (λ w. record w { buf_a = memset_zero w.buf_a; buf_b = memset_zero w.buf_b })
        (λ w paired. (paired, refl))
      ▸ Keeps-bind (str_cmp_loop-Keeps v1 v1_buf buf_size 100 0)
          λ r. Keeps-or_else 0 (read_into_b-Keeps k v2 v2_buf r.0) ▸ Keeps-gets _
