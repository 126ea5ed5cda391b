-- ===== src/Server/Ids.antt =====
-- The client ids that src/main.c gives: no two entries of the response map, and no two clients that
-- wait to be served, have the same.
use mathlib.Core.List.{Nodup, Nodup-cons, mem-cons, mem-cons_of_mem}
use mathlib.Core.List.Perm
use mathlib.Core.Logic.{∥∥₁_elim}
use native.Mathlib.Bridge.{le_prop}
use os_lab.Prelude.{ℕ, ◌+◌, ◌<◌, Bool, true, false, List, ◌∷◌, ℤ, map, Mem, Perm, arith, inl, inr}
use os_lab.Priority.{normal}
use os_lab.Task.{ClientInfo}
use os_lab.Queue.{Queue, queue_init}
use os_lab.Queue.Insert.{queue_push-added}
use os_lab.Responses.{ResponseQueueEntry, entry_inhabited, register_client_response_queue}
use os_lab.Server.{client_inhabited}

-- Ids that are given once, all below the next.
pub record Fresh (ids : List ℕ) (next : ℕ) : Type 0 where
  pub once : Nodup ids
  pub below : (id : ℕ) → Mem id ids → id < next

pub Fresh-perm : (xs ys : List ℕ) (n : ℕ) → Perm xs ys → Fresh ys n → Fresh xs n
Fresh-perm xs ys n same f = record {
  once = Perm.nodup (Perm.symm same) f.once;
  below = λ id m. f.below id ((Perm.mem_iff same).0 m);
}

pub Fresh-later : (xs : List ℕ) (n : ℕ) → Fresh xs n → Fresh xs (n + 1)
Fresh-later xs n f = record { once = f.once; below = λ id m. omega (arith, f.below id m) }

pub Fresh-cons : (xs : List ℕ) (n : ℕ) → Fresh xs n → Fresh (n ∷ xs) (n + 1)
Fresh-cons xs n f = record {
  once = Nodup-cons.1 (λ m. absurd (omega (arith, f.below n m)), f.once);
  below = λ id m. ∥∥₁_elim (mem-cons.0 m) (le_prop) (λ c. elim c [
    | inl same ↦ omega (arith, same)
    | inr later ↦ omega (arith, f.below id later)
  ]);
}

pub Fresh-tail : (x : ℕ) (xs : List ℕ) (n : ℕ) → Fresh (x ∷ xs) n → Fresh xs n
Fresh-tail x xs n f = record {
  once = (Nodup-cons.0 f.once).1;
  below = λ id m. f.below id (mem-cons_of_mem x m);
}

-- The ids of the entries of the response map.
abbrev pub map_ids : Queue ResponseQueueEntry → List ℕ
map_ids q = map (λ e. e.item.client_id) q.items

-- The ids of the clients that wait to be served.
abbrev pub waiting_ids : Queue ClientInfo → List ℕ
waiting_ids q = map (λ e. e.item.client_id) q.items

pub registered_ids :
    (cmp : ResponseQueueEntry → ResponseQueueEntry → ℤ) (allocated grows : Bool)
    (q : Queue ResponseQueueEntry) (n : ℕ)
    → Fresh (map_ids q) n
    → Fresh (map_ids (register_client_response_queue cmp allocated grows q n).0) (n + 1)
unfolding register_client_response_queue
registered_ids cmp true grows q n f =
    elim (queue_push-added cmp grows q (record { client_id = n; queue = queue_init }) normal) [
      | inl added ↦
          Fresh-perm _ (n ∷ map_ids q) (n + 1) (Perm.map (λ e. e.item.client_id) added)
            (Fresh-cons (map_ids q) n f)
      | inr same ↦ rw same (Fresh-later (map_ids q) n f)
    ]
registered_ids cmp false grows q n f = Fresh-later (map_ids q) n f
