-- ===== src/Core/Authority/Sample.antt =====
-- A lease on the authority of the user of Identity/Sample, and what the authority answers.
use jake_ai.Prelude.{Option, [], codes, none, some, ◌∷◌}
use jake_ai.Core.Identity.Sample.{library, settings, now, token, claims}
use jake_ai.Core.Authority.{AuthorityLease, Moment}
use jake_ai.Core.Authority.Introspection.{Response}

abbrev pub moment : Moment
moment = record { lib = library; settings = settings; now = now; monotonic = 5000 }

abbrev pub answer : Option Response
answer = some (record {
  status_code = 200;
  content_encoding = none;
  content_type = some "application/json; charset=utf-8";
  chunks = codes "S" ∷ [];
})

abbrev pub fresh : AuthorityLease
fresh = record {
  token = token;
  claims = claims;
  checked_monotonic = 0;
  signing_kid = "k1";
  signing_fingerprint = "digest";
  denial = none;
  operation_permissions = [];
}

abbrev pub lease : AuthorityLease
lease = record fresh { checked_monotonic = 5000; operation_permissions = "agent:read" ∷ [] }
