-- ===== src/Gateway/AuditingResolver/Verdict.antt =====
-- The record says what the proxy does.
use gigmcp.Base.{
  Text, ◌≡◌, ◌⊎◌, inl, inr, refl, Result, Result-cases, ok, err, lit, arith, Bool-cases,
}
use gigmcp.Proxy.{Identity, Credential}
use gigmcp.Proxy.Allow.{CaseTable, host_allowed}
use gigmcp.Proxy.Tunnel.{Connect, Env, Outcome, refused, tunnel, hostname, establish, admitted}
use gigmcp.Gateway.AuditingResolver.{AuditRecord, AuditingResolver, offer, judged, audited}

module _ ⦃t : CaseTable⦄ {E : Type 0} (message : E → Text)
    (inner : Identity → Text → Result E Credential) (a : AuditingResolver) (id : Identity)
    (r : Connect) (env : Env) where
  -- What the proxy does with a request whose credential comes from the audited resolver.
  abbrev pub outcome : Outcome
  outcome = admitted (λ i host. (audited message inner i host a).0) id r env

  -- A record and what it says: "error" of a resolver that failed and a refusal; "resolved" of a
  -- credential and a tunnel, as far as the environment permits; "denied" of one and a refusal.
  pub record IsVerdict (rec : AuditRecord) : Type 0 where
    pub recorded : (audited message inner id (hostname r.host) a).1 ≡ offer rec a
    pub server : rec.server ≡ id.server
    pub tenant : rec.tenant ≡ id.tenant
    pub host : rec.host ≡ hostname r.host
    pub says :
        ((e : E) × (inner id (hostname r.host) ≡ err e)
          × (rec.decision ≡ lit "error")
          × (rec.detail ≡ message e)
          × (outcome ≡ refused 403))
        ⊎ ((cred : Credential) × (inner id (hostname r.host) ≡ ok cred)
            × (((rec.decision ≡ lit "resolved") × (outcome ≡ establish env (tunnel r.host id cred)))
                ⊎ ((rec.decision ≡ lit "denied") × (outcome ≡ refused 403))))

  same : (audited message inner id (hostname r.host) a).0 ≡ inner id (hostname r.host)
  unfolding audited
  same = refl

  -- For the host of a CONNECT the audited resolver answers what the inner one answers, and offers
  -- the channel one record, with the server and the tenant of the sandbox and that host, which says
  -- what the proxy does, whatever the environment: "error" when the resolver fails and the proxy
  -- refuses with 403, "resolved" when it opens the tunnel, as far as the environment permits, and
  -- "denied" when it refuses the credential's hosts with 403.
  pub admitted-judged :
      ((audited message inner id (hostname r.host) a).0 ≡ inner id (hostname r.host))
      × ((rec : AuditRecord) × IsVerdict rec)
  unfolding admitted audited judged
  admitted-judged = (
    same,
    (
      judged message id (hostname r.host) (inner id (hostname r.host)),
      elim (Result-cases (inner id (hostname r.host))) [
        | inr (e, bad) ↦ record {
          recorded = refl;
          server = ground (arith, bad);
          tenant = ground (arith, bad);
          host = ground (arith, bad);
          says = inl (e, bad, ground (arith, bad), ground (arith, bad), ground (arith, bad));
        }
        | inl (cred, good) ↦ elim (Bool-cases (host_allowed (hostname r.host) cred.allowed_hosts)) [
          | inl may ↦ record {
            recorded = refl;
            server = ground (arith, good, may);
            tenant = ground (arith, good, may);
            host = ground (arith, good, may);
            says = inr (cred, good, inl (ground (arith, good, may), ground (arith, good, may)));
          }
          | inr not_allowed ↦ record {
            recorded = refl;
            server = ground (arith, good, not_allowed);
            tenant = ground (arith, good, not_allowed);
            host = ground (arith, good, not_allowed);
            says = inr (
              cred,
              good,
              inr (ground (arith, good, not_allowed), ground (arith, good, not_allowed)),
            );
          }
        ]
      ],
    ),
  )
