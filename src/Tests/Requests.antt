-- ===== src/Tests/Requests.antt =====
-- Runs of the theorems on requests, the configuration and anti-entropy.
use mathlib.Core.List.Memᴰ
use my_s.Objects.Rows.{object_by_filepath}
use my_s.Common.{
  [], any, arith, codes, false, none, refl, some, text_beq, true, ◌∷◌, ◌≡◌, ◌⊎◌, select, trim,
  first, split,
}
use my_s.Config.{CliOverrides, no_overrides, parse_cli_overrides, read_arguments}
use my_s.Config.Arguments.{parse_cli_overrides-ends}
use my_s.Config.Paths.{
  PathBuf, components_of, normalize_path, resolve_storage_path, but_last, components,
  normalize_onto,
}
use my_s.Config.Paths.Normal.{IsNormal, resolve_storage_path-IsNormal}
use my_s.Database.{Db}
use my_s.Objects.Etags.{digest_map}
use my_s.Replication.AntiEntropy.{run_once, digest_etag}
use my_s.Replication.AntiEntropy.Healed.{Grown, run_once-queued}
use my_s.Replication.Nodes.{list_active_peers, peer_should_receive_bucket}
use my_s.Replication.Outbox.{is_queued}
use my_s.Server.Http.{forbidden, http_ok, refused, reply}
use my_s.Server.Signatures.{Request, authorization, require_sigv4}
use my_s.Server.Signatures.Signed.{IsSigned, require_sigv4-IsSigned}
use my_s.Tests.Data.{cat, peer_row, sample}

run_once-queued_example :
    (any
        (is_queued (codes "n2") (codes "u1"))
        (run_once 200 (λ p. some []) (codes "n1") sample).outbox
      ≡ true)
    × Grown sample (run_once 200 (λ p. some []) (codes "n1") sample)
unfolding list_active_peers digest_map select text_beq digest_etag object_by_filepath first
    peer_should_receive_bucket any
run_once-queued_example =
    run_once-queued 200 (λ p. some []) (codes "n1") sample (peer_row (codes "n2") true) []
      (codes "u1") (codes "e0") cat (Memᴰ.tail (Memᴰ.head refl)) refl refl (Memᴰ.head refl) refl
      refl refl

abbrev signed_request : Request
signed_request = record {
  method = codes "GET";
  path = codes "/storage/objects/a";
  query = none;
  headers =
      (
        codes "authorization",
        codes "AWS4-HMAC-SHA256 Credential=k/d/r/s/aws4_request, SignedHeaders=host, Signature=x",
      )
      ∷ (codes "x-amz-date", codes "20240101T000000Z")
      ∷ [];
}

require_sigv4-IsSigned_example :
    (IsSigned
        (λ k x. x)
        (λ x. x)
        (λ x. codes "x")
        (codes "k")
        (codes "s")
        signed_request
        (authorization signed_request)
      × (require_sigv4
            (λ k x. x)
            (λ x. x)
            (λ x. codes "x")
            (codes "k")
            (codes "s")
            false
            signed_request
            (reply {S = Db} http_ok tt)
            sample
          ≡ reply http_ok tt sample))
    ⊎ (¬ IsSigned
          (λ k x. x)
          (λ x. x)
          (λ x. codes "x")
          (codes "k")
          (codes "s")
          signed_request
          (authorization signed_request)
        × (require_sigv4
              (λ k x. x)
              (λ x. x)
              (λ x. codes "x")
              (codes "k")
              (codes "s")
              false
              signed_request
              (reply {S = Db} http_ok tt)
              sample
            ≡ (refused forbidden, sample)))
require_sigv4-IsSigned_example =
    require_sigv4-IsSigned (λ k x. x) (λ x. x) (λ x. codes "x") (codes "k") (codes "s")
      signed_request (reply {S = Db} http_ok tt) sample

parse_cli_overrides-ends_example :
    (out : CliOverrides) × (parse_cli_overrides (codes "serve" ∷ codes "--bind" ∷ codes "x" ∷ [])
      ≡ some out)
    × (read_arguments 7 (codes "serve" ∷ codes "--bind" ∷ codes "x" ∷ []) no_overrides ≡ some out)
parse_cli_overrides-ends_example =
    parse_cli_overrides-ends 7 (codes "serve" ∷ codes "--bind" ∷ codes "x" ∷ []) (omega arith)

abbrev srv : PathBuf
srv = record { is_absolute = true; names = codes "srv" ∷ [] }

abbrev resolved : PathBuf
resolved = record { is_absolute = true; names = codes "x" ∷ codes "y" ∷ [] }

resolve_storage_path-IsNormal_example :
    (resolved.is_absolute ≡ true)
    × IsNormal resolved
    × (normalize_path (components_of resolved) ≡ resolved)
unfolding resolve_storage_path text_beq trim normalize_path normalize_onto components_of components
    split but_last
resolve_storage_path-IsNormal_example =
    resolve_storage_path-IsNormal srv (codes "../x/./y") resolved refl (refl, tt) refl
