-- ===== src/Net/Uri.antt =====
-- The parts of a URL that `realm::util::Uri` of realm-core gives to the networking layer: scheme,
-- authority, path and query. The parser is outside the repository.
use realm_cpp.Prelude.Bytes.{Bytes}

pub record Uri : Type 0 where
  pub scheme : Bytes
  pub host : Bytes
  pub port : Bytes
  pub path : Bytes
  pub query : Bytes
