-- ===== src/Sharedmem/Block/Reallocate.antt =====
-- `reallocateBlock`: a block of the size that a message needs, or no block.
use message_transport.Common.{
  ℕ, ◌^◌, ◌<◌, ◌≡◌, inl, inr, refl, sym, ap, ◌∙◌, true, false, List, lt→ltb, le→ltb, ◌==◌,
  Bool-cases, Option-cases, dec_lt, arith,
}
use message_transport.Sharedmem.Segment.{Segment, IsSegment}
use message_transport.Sharedmem.Descriptor.{Descriptor, key, record_size, reset}
use message_transport.Sharedmem.Block.State.{
  num_block, ShmHandle, no_handle, is_valid, ok, Shared, Client, Others, set_descriptor,
}
use message_transport.Sharedmem.Block.Operations.{
  grow_block, resize_block, reallocate_block, update_handle, is_stale,
}
use message_transport.Sharedmem.Block.Validity.{IsValid, update_same, update_ne}
use message_transport.Sharedmem.Block.Change.{drop-IsValid}
use message_transport.Sharedmem.Block.Resize.{
  IsCurrent, grown-IsValid, grown-IsCurrent, grown-HasSize, refitted-IsValid, refitted-IsCurrent,
  refitted-HasSize,
}
use message_transport.Sharedmem.Block.Lookup.{no_wait}
use message_transport.Sharedmem.Block.Counts.{
  record_size-count, record_size-clients, record_size-key, record_size-moves, reset-clients,
  reset_facts,
}
use message_transport.Sharedmem.Block.Access.{Quiet, Coherent, no_local_wait, Resized}

module _ (G : Segment) (laws : IsSegment G) (others : Others G) (size : ℕ)
    (wide : size < 2 ^ 32) where
  grow-Resized :
      (shm : ShmHandle) (s : Shared G)
      → IsValid G s
      → shm.handle < num_block
      → (s.descriptors shm.handle).active_ ≡ true
      → (s.descriptors shm.handle).allocated_ < size
      → (c : Client G) × (grow_block G shm size s ≡ ok tt c) × Resized G shm.handle size s c
  unfolding grow_block
  grow-Resized shm s valid lt a grows =
      elim (Option-cases (G.construct (G.destroy s.segment k) k size)) [
        | inl refused ↦ (
          record {
            shm = no_handle;
            shared = set_descriptor G i (reset d) (record s { segment = G.destroy s.segment k });
          },
          rw (refused, grow_block),
          record {
            valid =
                drop-IsValid G valid i lt (reset d) (G.destroy s.segment k) a ((reset_facts d).0)
                  ((reset_facts d).1) (laws.find-destroy s.segment k)
                  (laws.find-destroy_ne s.segment k);
            elsewhere = λ j ne. update_ne s.descriptors i j (reset d) ne;
            result = inr (
              refl,
              ap (λ (x : Descriptor). x.active_) (update_same s.descriptors i (reset d))
                  ∙ (reset_facts d).0,
              (grows, refused),
            );
            clients = (
              refl,
              ap (λ (x : Descriptor). x.num_clients) (update_same s.descriptors i (reset d))
                  ∙ reset-clients d,
            );
            named = λ a'. cc (
              a',
              ap (λ (x : Descriptor). x.active_) (update_same s.descriptors i (reset d))
                  ∙ (reset_facts d).0,
            );
            steady = λ a'. cc (
              a',
              ap (λ (x : Descriptor). x.active_) (update_same s.descriptors i (reset d))
                  ∙ (reset_facts d).0,
            );
          },
        )
        | inr ((m, p), made) ↦ (
          record {
            shm = record {
              handle = i;
              ptr = p;
              resize_count = (record_size size size d).resize_count_;
            };
            shared = set_descriptor G i (record_size size size d) (record s { segment = m });
          },
          rw (made, grow_block),
          record {
            valid = grown-IsValid G laws valid i lt a size wide grows m p made;
            elsewhere = λ j ne. update_ne s.descriptors i j (record_size size size d) ne;
            result = inl (
              grown-IsCurrent G laws valid i lt a size wide grows m p made,
              refl,
              grown-HasSize G laws valid i lt a size wide grows m p made,
              λ short. cc (short.1, made),
            );
            clients = (
              refl,
              ap (λ (x : Descriptor). x.num_clients)
                    (update_same s.descriptors i (record_size size size d))
                  ∙ record_size-clients size size d,
            );
            named = λ a'.
                ap key (update_same s.descriptors i (record_size size size d))
                ∙ record_size-key size size d;
            steady = λ a' e. absurd (
                record_size-moves size size d grows (
                  sym (
                    ap (λ (x : Descriptor). x.resize_count_)
                      (update_same s.descriptors i (record_size size size d)))
                  ∙ e));
          },
        )
      ]
    where
      i : ℕ
      i = shm.handle

      d : Descriptor
      d = s.descriptors i

      k : List ℕ
      k = key d

  resize-Resized :
      (shm : ShmHandle) (s : Shared G)
      → IsValid G s
      → s.num_clients ≡ 0
      → IsCurrent G shm s
      → (c : Client G) × (resize_block G others shm size s ≡ ok tt c)
        × Resized G shm.handle size s c
  unfolding resize_block
  resize-Resized shm s valid quiet cur = elim (dec_lt d.allocated_ size) [
    | yes grows ↦
        rw (lt→ltb d.allocated_ size grows, no_wait G others s quiet)
          (grow-Resized shm s valid (cur.inside) (cur.active) grows)
    | no fits ↦ rw (le→ltb d.allocated_ size (omega arith)) (
      record { shm = shm; shared = set_descriptor G shm.handle (record_size size 0 d) s },
      refl,
      record {
        valid =
            refitted-IsValid G laws valid shm.handle (cur.inside) (cur.active) size 0 (omega arith)
              refl;
        elsewhere = λ j ne. update_ne s.descriptors shm.handle j (record_size size 0 d) ne;
        result = inl (
          refitted-IsCurrent G laws valid shm.handle (cur.inside) (cur.active) size 0 (omega arith)
              refl shm refl (cur.pointer)
              (cur.count ∙ sym (record_size-count size d (omega arith))),
          refl,
          refitted-HasSize G laws valid shm.handle (cur.inside) (cur.active) size 0 (omega arith)
              refl,
          λ short. omega (arith, short.0),
        );
        clients = (
          refl,
          ap (λ (x : Descriptor). x.num_clients)
                (update_same s.descriptors shm.handle (record_size size 0 d))
              ∙ record_size-clients size 0 d,
        );
        named = λ a'.
            ap key (update_same s.descriptors shm.handle (record_size size 0 d))
            ∙ record_size-key size 0 d;
        steady = λ a' e.
            ap (λ (x : Descriptor). (G.find s.segment (key x)).first)
              (update_same s.descriptors shm.handle (record_size size 0 d))
            ∙ ap (λ n. (G.find s.segment n).first) (record_size-key size 0 d);
      },
    )
  ]
    where
      d : Descriptor
      d = s.descriptors shm.handle

  update_handle-IsCurrent :
      (shm : ShmHandle) (s : Shared G)
      → IsValid G s
      → Coherent G shm s
      → IsCurrent G (update_handle G shm s) s
  unfolding update_handle
  update_handle-IsCurrent shm s valid co =
      let b = valid.backed shm.handle (co.inside) (co.active) in
      record {
        inside = co.inside;
        active = co.active;
        there = b.present;
        pointer = refl;
        count = refl;
      }

  fresh-IsCurrent :
      (shm : ShmHandle) (s : Shared G)
      → Coherent G shm s
      → is_stale G shm s ≡ false
      → IsCurrent G shm s
  fresh-IsCurrent shm s co e =
      let same : shm.resize_count ≡ (s.descriptors shm.handle).resize_count_ = ground arith in
      record {
        inside = co.inside;
        active = co.active;
        there = co.there;
        pointer = co.pointer same;
        count = same;
      }

  -- On a handle of an active entry, whose pointer holds where its count is the entry's, in a valid
  -- table where no client is registered with the manager or the block, and for a size below 2^32,
  -- `reallocateBlock` returns, and leaves the table valid and the other entries alone. Unless there is
  -- no room, the block is then recorded with `size` bytes in use, under its name, and the handle is a
  -- current one of it. There is no room where the block has fewer than `size` bytes and the segment,
  -- with the block destroyed, fails to construct one of `size` bytes; then, and only then, the entry
  -- is free and the handle is none. Neither counter of clients changes, and an object that moved shows
  -- in the resize count.
  pub reallocate_block-Resized :
      (c : Client G)
      → IsValid G c.shared
      → Quiet G c.shm.handle c.shared
      → Coherent G c.shm c.shared
      → (c' : Client G) × (reallocate_block G others size c ≡ ok tt c')
        × Resized G c.shm.handle size c.shared c'
  unfolding reallocate_block is_valid update_handle
  reallocate_block-Resized c valid quiet co =
      rw
        (
          no_local_wait G others c.shm.handle c.shared (quiet.local),
          no_wait G others c.shared (quiet.global),
          present,
          lt→ltb c.shm.handle num_block (co.inside),
        )
        (elim (Bool-cases (is_stale G c.shm c.shared)) [
          | inl stale ↦ rw stale (
              resize-Resized (update_handle G c.shm c.shared) c.shared valid (quiet.global)
                (update_handle-IsCurrent c.shm c.shared valid co))
          | inr fresh ↦ rw fresh (
              resize-Resized c.shm c.shared valid (quiet.global)
                (fresh-IsCurrent c.shm c.shared co fresh))
        ])
    where
      present : (c.shm.ptr == 0) ≡ false
      present = ground (arith, co.there)
