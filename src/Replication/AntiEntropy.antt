-- ===== src/Replication/AntiEntropy.antt =====
-- src/cluster/anti_entropy.rs: a turn of the loop that sends the peers what they miss. `remote` is the
-- answer of a peer to SyncDigest, none if it does not answer. The source goes through a hash map of
-- the local digest, here in the order of the rows.
pub mod Healed
use my_s.Common.{
  Bool, List, Option, Text, [], if◌then◌else◌, none, not, some, text_beq, true, ℕ, ◌∷◌,
}
use my_s.Database.{Db}
use my_s.Models.{ClusterPeer, ObjectRecord}
use my_s.Objects.Etags.{digest_map}
use my_s.Objects.Rows.{object_by_filepath}
use my_s.Replication.Nodes.{list_active_peers, peer_should_receive_bucket}
use my_s.Replication.Outbox.{enqueue_put_for_peer}

-- The etag that a digest has for a path.
unfoldable pub digest_etag : Text → List (Text × Text) → Option Text
digest_etag path [] = none
digest_etag path ((p, etag) ∷ d) = if text_beq p path then some etag else digest_etag path d

abbrev pub is_missing : List (Text × Text) → Text → Text → Bool
is_missing remote path etag = elim (digest_etag path remote) [
  | none ↦ true
  | some remote_etag ↦ not (text_beq remote_etag etag)
]

module _ (now : ℕ) where
  abbrev pub enqueue_found : Text → Option ObjectRecord → Db → Db
  enqueue_found peer_id none db = db
  enqueue_found peer_id (some o) db =
      if peer_should_receive_bucket peer_id o.bucket_id db
      then (enqueue_put_for_peer now peer_id o.id o.filepath o.etag db).1
      else db

  abbrev pub heal_entry : Text → List (Text × Text) → Text → Text → Db → Db
  heal_entry peer_id remote path etag db =
      if is_missing remote path etag
      then enqueue_found peer_id (object_by_filepath path db) db
      else db

  unfoldable pub heal_entries : Text → List (Text × Text) → List (Text × Text) → Db → Db
  heal_entries peer_id remote [] db = db
  heal_entries peer_id remote ((path, etag) ∷ d) db =
      heal_entries peer_id remote d (heal_entry peer_id remote path etag db)

  abbrev pub heal_answered : Text → List (Text × Text) → Option (List (Text × Text)) → Db → Db
  heal_answered peer_id local none db = db
  heal_answered peer_id local (some d) db = heal_entries peer_id d local db

  module _ (remote : ClusterPeer → Option (List (Text × Text))) (local_node_id : Text) where
    unfoldable pub heal_peer : List (Text × Text) → ClusterPeer → Db → Db
    heal_peer local p db =
        if text_beq p.id local_node_id then db else heal_answered p.id local (remote p) db

    unfoldable pub heal_peers : List (Text × Text) → List ClusterPeer → Db → Db
    heal_peers local [] db = db
    heal_peers local (p ∷ ps) db = heal_peers local ps (heal_peer local p db)

    unfoldable pub run_once : Db → Db
    run_once db = heal_peers (digest_map [] db) (list_active_peers db) db
