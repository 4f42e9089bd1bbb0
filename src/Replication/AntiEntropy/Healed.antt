-- ===== src/Replication/AntiEntropy/Healed.antt =====
-- src/cluster/anti_entropy.rs: which objects a turn sends.
use mathlib.Core.List.Memᴰ
use mathlib.Core.List.{Memᴰ}
use my_s.Common.{
  Bool, Bool-cases, List, Option, Option-cases, Text, [], any, ap, any-append, any-first,
  any-select, arith, false, inl, inr, nat_beq_refl, none, refl, some, sym, text_beq, text_beq_refl,
  true, ℕ, ◌&&◌, ◌∙◌, ◌∷◌, ◌≡◌,
}
use my_s.Database.{Db}
use my_s.Models.{ClusterPeer, ObjectRecord, OutboxRow, put_op}
use my_s.Objects.Etags.{digest_map}
use my_s.Objects.Rows.{has_filepath, has_object_id, is_active, object_by_filepath}
use my_s.Replication.AntiEntropy.{
  enqueue_found, heal_entries, heal_entry, heal_peer, heal_peers, is_missing, run_once,
}
use my_s.Replication.Nodes.{has_peer_id, list_active_peers, peer_should_receive_bucket}
use my_s.Replication.Outbox.{enqueue_put_for_peer, is_queued, new_job}

-- Nothing but the outbox, with the next id of its jobs, is changed, and it only grows.
abbrev pub Grown : Db → Db → Type 0
Grown db db' =
    (db' ≡ record db { outbox = db'.outbox; next_outbox = db'.next_outbox })
    × ((q : OutboxRow → Bool) → any q db.outbox ≡ true → any q db'.outbox ≡ true)

Grown-refl : (db : Db) → Grown db db
Grown-refl db = (refl, λ q h. h)

Grown-trans : (a b c : Db) → Grown a b → Grown b c → Grown a c
Grown-trans a b c (e, g) (e', g') = (
  e' ∙ ap (λ (x : Db). record x { outbox = c.outbox; next_outbox = c.next_outbox }) e,
  λ q h. g' q (g q h),
)

enqueue-Grown :
    (now : ℕ) (peer_id : Text) (object_id : ℕ) (uuid etag : Text) (db : Db)
    → Grown db (enqueue_put_for_peer now peer_id object_id uuid etag db).1
unfolding enqueue_put_for_peer
enqueue-Grown now peer_id object_id uuid etag db =
    elim (Bool-cases (any (is_queued peer_id uuid) db.outbox)) [
      | inl e ↦ rw e (Grown-refl db)
      | inr e ↦
          elim (Bool-cases
            (any (has_peer_id peer_id) db.peers && any (has_object_id object_id) db.objects)) [
              | inr f ↦ rw (e, f) (Grown-refl db)
              | inl f ↦
                  rw (e, f)
                    (
                      refl,
                      λ q h.
                          any-append q db.outbox
                            (new_job now db.next_outbox peer_id object_id uuid etag put_op ∷ [])
                          ∙ rw h refl,
                    )
            ]
    ]

enqueue-queued :
    (now : ℕ) (peer_id : Text) (object_id : ℕ) (uuid etag : Text) (db : Db)
    → any (has_peer_id peer_id) db.peers ≡ true
    → any (has_object_id object_id) db.objects ≡ true
    → any
        (is_queued peer_id uuid)
        (enqueue_put_for_peer now peer_id object_id uuid etag db).1.outbox
      ≡ true
unfolding enqueue_put_for_peer any
enqueue-queued now peer_id object_id uuid etag db hp ho =
    elim (Bool-cases (any (is_queued peer_id uuid) db.outbox)) [
      | inl e ↦ rw (e) e
      | inr e ↦
          rw (e, hp, ho)
            (any-append (is_queued peer_id uuid) db.outbox
                (new_job now db.next_outbox peer_id object_id uuid etag put_op ∷ [])
              ∙ rw (e, text_beq_refl peer_id, text_beq_refl uuid) refl)
    ]

by_filepath-present :
    (path : Text) (db : Db) (o : ObjectRecord)
    → object_by_filepath path db ≡ some o
    → any (has_object_id o.id) db.objects ≡ true
unfolding object_by_filepath
by_filepath-present path db o h =
    any-first (λ x. has_filepath path x && is_active x) (has_object_id o.id) db.objects o h
      (nat_beq_refl o.id)

Grown-object_by_filepath :
    (path : Text) (a b : Db) → Grown a b → object_by_filepath path b ≡ object_by_filepath path a
unfolding object_by_filepath
Grown-object_by_filepath path a b g = ap (λ (x : Db). object_by_filepath path x) (g.0)

Grown-should_receive :
    (peer_id : Text) (bucket_id : ℕ) (a b : Db)
    → Grown a b
    → peer_should_receive_bucket peer_id bucket_id b
      ≡ peer_should_receive_bucket peer_id bucket_id a
unfolding peer_should_receive_bucket
Grown-should_receive peer_id bucket_id a b g =
    ap (λ (x : Db). peer_should_receive_bucket peer_id bucket_id x) (g.0)

module _ (now : ℕ) (peer_id : Text) where
  enqueue_found-Grown :
      (r : Option ObjectRecord) (db : Db) → Grown db (enqueue_found now peer_id r db)
  enqueue_found-Grown none db = Grown-refl db
  enqueue_found-Grown (some o) db =
      elim (Bool-cases (peer_should_receive_bucket peer_id o.bucket_id db)) [
        | inl e ↦ rw e (enqueue-Grown now peer_id o.id o.filepath o.etag db)
        | inr e ↦ rw e (Grown-refl db)
      ]

  heal_entry-Grown :
      (d : List (Text × Text)) (path etag : Text) (db : Db)
      → Grown db (heal_entry now peer_id d path etag db)
  heal_entry-Grown d path etag db = elim (Bool-cases (is_missing d path etag)) [
    | inl e ↦ rw e (enqueue_found-Grown (object_by_filepath path db) db)
    | inr e ↦ rw e (Grown-refl db)
  ]

  heal_entries-Grown :
      (d entries : List (Text × Text)) (db : Db) → Grown db (heal_entries now peer_id d entries db)
  unfolding heal_entries
  heal_entries-Grown d [] db = Grown-refl db
  heal_entries-Grown d ((path, etag) ∷ entries) db =
      let db' = heal_entry now peer_id d path etag db in
      Grown-trans db db' (heal_entries now peer_id d entries db') (heal_entry-Grown d path etag db)
        (heal_entries-Grown d entries db')

  heal_entry-queued :
      (d : List (Text × Text)) (path etag : Text) (o : ObjectRecord) (db : Db)
      → is_missing d path etag ≡ true
      → object_by_filepath path db ≡ some o
      → peer_should_receive_bucket peer_id o.bucket_id db ≡ true
      → any (has_peer_id peer_id) db.peers ≡ true
      → any (is_queued peer_id o.filepath) (heal_entry now peer_id d path etag db).outbox ≡ true
  heal_entry-queued d path etag o db m h r p =
      rw (m, h, r)
        (enqueue-queued now peer_id o.id o.filepath o.etag db p (by_filepath-present path db o h))

  heal_entries-queued :
      (d entries : List (Text × Text)) (path etag : Text) (o : ObjectRecord) (start db : Db)
      → Grown start db
      → Memᴰ (path, etag) entries
      → is_missing d path etag ≡ true
      → object_by_filepath path start ≡ some o
      → peer_should_receive_bucket peer_id o.bucket_id start ≡ true
      → any (has_peer_id peer_id) start.peers ≡ true
      → any (is_queued peer_id o.filepath) (heal_entries now peer_id d entries db).outbox ≡ true
  unfolding heal_entries
  heal_entries-queued d [] path etag o start db g m n h r p = absurd (Memᴰ.not-nil m)
  heal_entries-queued d ((x, y) ∷ entries) path etag o start db g m n h r p =
      let db' = heal_entry now peer_id d x y db in
      elim (Memᴰ.cases_cons m) [
        | inl e ↦ (heal_entries-Grown d entries db').1 (is_queued peer_id o.filepath) (
            heal_entry-queued d x y o db
              (rw (ap (λ (t : Text × Text). t.0) (sym e), ap (λ (t : Text × Text). t.1) (sym e)) n)
              (Grown-object_by_filepath x start db g ∙ rw (ap (λ (t : Text × Text). t.0) (sym e)) h)
              (Grown-should_receive peer_id o.bucket_id start db g ∙ r)
              (ap (λ (x : Db). any (has_peer_id peer_id) x.peers) (g.0) ∙ p))
        | inr k ↦
            heal_entries-queued d entries path etag o start db'
              (Grown-trans start db db' g (heal_entry-Grown d x y db)) k n h r p
      ]

mem-any :
    {A : Type 0} (q : A → Bool) (x : A) (xs : List A) → Memᴰ x xs → q x ≡ true → any q xs ≡ true
unfolding any
mem-any q x [] m h = absurd (Memᴰ.not-nil m)
mem-any q x (y ∷ ys) m h = elim (Memᴰ.cases_cons m) [
  | inl e ↦ rw (sym e, h) refl
  | inr k ↦ rw (mem-any q x ys k h) (ground arith)
]

any-and :
    {A : Type 0} (p q : A → Bool) (xs : List A) → any (λ x. p x && q x) xs ≡ true → any q xs ≡ true
unfolding any
any-and p q [] h = h
any-and p q (x ∷ xs) h = ground (arith, any-and p q xs)

module _ (now : ℕ) (remote : ClusterPeer → Option (List (Text × Text))) (local_node_id : Text)
    (local : List (Text × Text)) where
  heal_peer-Grown :
      (p : ClusterPeer) (db : Db) → Grown db (heal_peer now remote local_node_id local p db)
  unfolding heal_peer
  heal_peer-Grown p db = elim (Bool-cases (text_beq p.id local_node_id)) [
    | inl e ↦ rw e (Grown-refl db)
    | inr e ↦ elim (Option-cases (remote p)) [
      | inl k ↦ rw (e, k) (Grown-refl db)
      | inr (d, k) ↦ rw (e, k) (heal_entries-Grown now p.id d local db)
    ]
  ]

  heal_peers-Grown :
      (ps : List ClusterPeer) (db : Db) → Grown db (heal_peers now remote local_node_id local ps db)
  unfolding heal_peers
  heal_peers-Grown [] db = Grown-refl db
  heal_peers-Grown (p ∷ ps) db =
      let db' = heal_peer now remote local_node_id local p db in
      Grown-trans db db' (heal_peers now remote local_node_id local ps db') (heal_peer-Grown p db)
        (heal_peers-Grown ps db')

  module _ (path etag : Text) (o : ObjectRecord) (p : ClusterPeer) (d : List (Text × Text))
      (start : Db) (other : text_beq p.id local_node_id ≡ false) (answered : remote p ≡ some d)
      (digested : Memᴰ (path, etag) local) (missing : is_missing d path etag ≡ true)
      (found : object_by_filepath path start ≡ some o)
      (allowed : peer_should_receive_bucket p.id o.bucket_id start ≡ true)
      (known : any (has_peer_id p.id) start.peers ≡ true) where
    heal_peer-queued :
        (db : Db)
        → Grown start db
        → any (is_queued p.id o.filepath) (heal_peer now remote local_node_id local p db).outbox
          ≡ true
    unfolding heal_peer
    heal_peer-queued db g =
        rw (other, answered)
          (heal_entries-queued now p.id d local path etag o start db g digested missing found
            allowed known)

    heal_peers-queued :
        (ps : List ClusterPeer) (db : Db)
        → Grown start db
        → Memᴰ p ps
        → any (is_queued p.id o.filepath) (heal_peers now remote local_node_id local ps db).outbox
          ≡ true
    unfolding heal_peers
    heal_peers-queued [] db g m = absurd (Memᴰ.not-nil m)
    heal_peers-queued (x ∷ ps) db g m =
        let db' = heal_peer now remote local_node_id local x db in
        elim (Memᴰ.cases_cons m) [
          | inl e ↦
              (heal_peers-Grown ps db').1 (is_queued p.id o.filepath)
                (rw (sym e) (heal_peer-queued db g))
          | inr k ↦ heal_peers-queued ps db' (Grown-trans start db db' g (heal_peer-Grown x db)) k
        ]

-- After a turn, a peer that is active, is not this node and has answered has a job to get the file of
-- an active object if its digest lacks the file or has another etag for it, and it should receive the
-- object's bucket. No job is lost, and nothing but the outbox is changed.
pub run_once-queued :
    (now : ℕ) (remote : ClusterPeer → Option (List (Text × Text))) (local_node_id : Text) (db : Db)
    (p : ClusterPeer) (d : List (Text × Text)) (path etag : Text) (o : ObjectRecord)
    → Memᴰ p (list_active_peers db)
    → text_beq p.id local_node_id ≡ false
    → remote p ≡ some d
    → Memᴰ (path, etag) (digest_map [] db)
    → is_missing d path etag ≡ true
    → object_by_filepath path db ≡ some o
    → peer_should_receive_bucket p.id o.bucket_id db ≡ true
    → (any (is_queued p.id o.filepath) (run_once now remote local_node_id db).outbox ≡ true)
      × Grown db (run_once now remote local_node_id db)
unfolding run_once list_active_peers
run_once-queued now remote local_node_id db p d path etag o m other answered digested missing found
      allowed =
    (
      heal_peers-queued now remote local_node_id (digest_map [] db) path etag o p d db other
          answered digested missing found allowed
          (any-and (λ (x : ClusterPeer). x.is_active) (has_peer_id p.id) db.peers
            (sym (any-select (λ (x : ClusterPeer). x.is_active) (has_peer_id p.id) db.peers)
              ∙ mem-any (has_peer_id p.id) p (list_active_peers db) m (text_beq_refl p.id)))
          (list_active_peers db) db (Grown-refl db) m,
      heal_peers-Grown now remote local_node_id (digest_map [] db) (list_active_peers db) db,
    )
