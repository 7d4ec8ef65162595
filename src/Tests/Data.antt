-- ===== src/Tests/Data.antt =====
-- The data of the runs: a program with a scope policy, two people, and the requests that take a
-- hypothesis from its program to its finding.
use seclab.Prelude.{◌+◌, Bool, true, false, none, some, List, [], ◌∷◌}
use seclab.Prelude.Text.{Text, codes}
use seclab.Security.Models.{User, analyst, security_lead}
use seclab.Security.Scope.{ProgramPolicy}
use seclab.Db.{Store, Session}
use seclab.Recon.Services.{role_analyst}
use seclab.Recon.Routes.{Request}

abbrev pub no_brackets : Text → Bool
no_brackets host = false

-- any function will do for a digest
abbrev pub digest : Text → Text
digest content = content

abbrev pub policy : ProgramPolicy
policy = record {
  allowed_domains = codes "*.example.com" ∷ [];
  denied_domains = codes "admin.example.com" ∷ [];
  forbidden_techniques = codes "dos" ∷ [];
  limits = record {
    max_requests_per_minute = 60;
    manual_approval_request_rate = 30;
    max_targets_per_execution = 1;
    manual_approval_techniques = codes "fuzzing" ∷ [];
  };
  notes = none;
}

abbrev pub alice : User
alice = record {
  username = codes "alice";
  role = analyst;
  api_key_hash = codes "a";
  is_active = true;
}

abbrev pub bob : User
bob = record {
  username = codes "bob";
  role = security_lead;
  api_key_hash = codes "b";
  is_active = true;
}

abbrev pub empty_store : Store
empty_store = record {
  users = alice ∷ bob ∷ [];
  audit = [];
  evidence = [];
  approvals = [];
  programs = [];
  targets = [];
  hypotheses = [];
  executions = [];
  findings = [];
  matches = [];
}

abbrev pub empty_session : Session
empty_session = record { work = empty_store; saved = empty_store; clock = λ n. n + 1000; ticks = 0 }

abbrev pub workflow : List (User × Request)
workflow =
    (
      alice,
      Request.create_program
          (record { name = codes "acme"; description = codes "bounty"; scope_policy = policy }),
    )
    ∷ (
      alice,
      Request.create_target 1
          (record { identifier = codes "www.example.com"; target_type = codes "domain" }),
    )
    ∷ (
      alice,
      Request.create_hypothesis 1 (record {
        title = codes "xss";
        description = codes "reflected";
        suggested_next_step = codes "probe";
        required_role = role_analyst;
        severity = codes "low";
      }),
    )
    ∷ (alice, Request.request_approval 1 (codes "please review") (some 60))
    ∷ (alice, Request.approve 1 (codes "my own"))
    ∷ (bob, Request.approve 1 (codes "fine"))
    ∷ (alice, Request.queue_execution 1 (codes "probe it"))
    ∷ (
      alice,
      Request.complete_execution 1 (record {
        output_summary = codes "alert fired";
        finding_title = codes "xss";
        finding_description = codes "reflected";
        finding_severity = codes "low";
      }),
    )
    ∷ (
      alice,
      Request.complete_execution 1 (record {
        output_summary = codes "again";
        finding_title = codes "xss";
        finding_description = codes "reflected";
        finding_severity = codes "low";
      }),
    )
    ∷ []
