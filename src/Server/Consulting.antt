-- ===== src/Server/Consulting.antt =====
-- When the server of src/main.rs consults the oracle: two servers that differ in the oracle alone.
use crackstation_rust.Base.{
  ℕ, ◌<◌, true, Option, some, Text, codes, ◌≡◌, ◌⊎◌, inl, inr, refl, ap, subst, ◌∙◌, ◌>>=◌,
}
use mathlib.Core.Option
use crackstation_rust.Secret.{new_secret}
use crackstation_rust.Http.{IpAddr, Method, is_post, header_str}
use crackstation_rust.Captcha.{is_test_site_key}
use crackstation_rust.Cracking.Oracle.{CrackWithLimit}
use crackstation_rust.Registry.Pages.{Handler}
use crackstation_rust.Home as Form
use crackstation_rust.Home.Consulting as Lookup
use crackstation_rust.Home.Consulting.{post-Consults}
use crackstation_rust.Middleware.UrlCanonicalization.{Request, inner, call}
use crackstation_rust.Middleware.BufferBody.{next, buffer_body_middleware}
use crackstation_rust.Csrf.{ok, check_origin}
use crackstation_rust.Dispatcher.{
  PageContext, Reply, bad_request, render_not_found, method_not_allowed, cross_origin_rejected,
  call_get, call_post,
}
use crackstation_rust.Dispatcher.Dispatch.{is_routed, Explains, Replies, handle-Replies}
use crackstation_rust.Dispatcher.Contexts.{IsOurs, Ours, Ours-handle}
use crackstation_rust.Server.Outside.{Environment, form}
use crackstation_rust.Server.Answers.{client}
use crackstation_rust.Server.{
  max_concurrent_requests, form_context, get_page, post_page, respond, answer_of, call_handle,
}

-- The server over another oracle.
abbrev pub with_oracle :
    {Body Store HitCounts : Type 0}
    → CrackWithLimit
    → Environment Body Store HitCounts
    → Environment Body Store HitCounts
with_oracle oracle o = record o { oracle = oracle }

module _ {Body Store HitCounts : Type 0} (o : Environment Body Store HitCounts) where
  -- What the form reads of a request.
  abbrev pub submission_context : IpAddr → Request → Form.Context
  submission_context ip req = record {
    client_ip = client o ip req;
    captcha_bypass_header = Option.map new_secret (header_str "x-captcha-bypass" req.headers);
    recaptcha_secret_key = o.recaptcha_secret_key;
    serves_test_site_key = is_test_site_key o.recaptcha_site_key;
  }

  -- A request whose hashes are looked up.
  pub record Consults (others : ℕ) (method : Method) (req : Request) (ip : IpAddr) (sent : Body)
      : Type 0 where
    pub within : others < max_concurrent_requests
    pub posted : is_post method ≡ true
    pub root : req.path ≡ codes "/"
    pub settled : call o.unicode_lower o.authority_host req ≡ some inner
    pub ours : check_origin o.unicode_lower o.authority_host req.headers ≡ ok
    pub bytes : Text
    pub received :
        buffer_body_middleware Body o.to_bytes o.unicode_lower method req.path req.headers sent
        ≡ some (next (some bytes))
    pub looked_up :
        Lookup.Consults o.parse_form o.sha256_hex o.send o.parse_json
          (submission_context ip req)
          bytes

  module _ (oracle : CrackWithLimit) where
    -- Two answers are one, unless the hashes of the request are looked up.
    abbrev pub Agrees : {A : Type 0} → ℕ → Method → Request → IpAddr → Body → A → A → Type 0
    Agrees others method req ip sent a b = (a ≡ b) ⊎ Consults others method req ip sent

    pub Agrees-ap :
        {A B : Type 0} (f : A → B) (others : ℕ) (method : Method) (req : Request) (ip : IpAddr)
        (sent : Body) {a b : A}
        → Agrees others method req ip sent a b
        → Agrees others method req ip sent (f a) (f b)
    Agrees-ap f others method req ip sent (inl same) = inl (ap f same)
    Agrees-ap f others method req ip sent (inr consults) = inr consults

    get_page-same :
        (handler : Handler) (ctx : PageContext HitCounts)
        → get_page o handler ctx ≡ get_page (with_oracle oracle o) handler ctx
    unfolding get_page
    get_page-same Handler.home ctx = refl
    get_page-same Handler.hashing_security ctx = refl
    get_page-same Handler.about ctx = refl
    get_page-same Handler.wordlist ctx = refl
    get_page-same Handler.legal_privacy ctx = refl
    get_page-same Handler.not_found ctx = refl

    -- The page of a form, in the context of the request.
    form-Consults :
        (handler : Handler) (ctx : PageContext HitCounts) (bytes : Text)
        → (post_page o handler ctx bytes ≡ post_page (with_oracle oracle o) handler ctx bytes)
          ⊎ Lookup.Consults o.parse_form o.sha256_hex o.send o.parse_json (form_context o ctx) bytes
    unfolding post_page
    form-Consults Handler.home ctx bytes =
        elim (post-Consults o.parse_form o.sha256_hex o.send o.parse_json o.codec o.oracle oracle
          (form_context o ctx) bytes) [
            | inl same ↦ inl (
                ap (λ (p : Option Form.HomePage). p >>= λ page. some (o.render (form page ctx)))
                  same)
            | inr found ↦ inr found
          ]
    form-Consults Handler.hashing_security ctx bytes = inl refl
    form-Consults Handler.about ctx bytes = inl refl
    form-Consults Handler.wordlist ctx bytes = inl refl
    form-Consults Handler.legal_privacy ctx bytes = inl refl
    form-Consults Handler.not_found ctx bytes = inl refl

    module _ (others : ℕ) (method : Method) (req : Request) (ip : IpAddr) (sent : Body)
        (body : Option Text) (store : Store) (room : others < max_concurrent_requests)
        (connected : req.connection_ip ≡ some ip)
        (settled : call o.unicode_lower o.authority_host req ≡ some inner)
        (received : buffer_body_middleware Body o.to_bytes o.unicode_lower method req.path
            req.headers sent
          ≡ some (next body)) where
      Agrees-respond :
          (reply : Reply HitCounts) (after : Store)
          → Explains o.unicode_lower o.authority_host o.parse_ip o.show_ip o.no_hits
              o.record_and_get_hits o.recaptcha_site_key method req
              (client o ip req)
              body
              store
              reply
              after
          → IsOurs o.unicode_lower o.authority_host o.parse_ip o.show_ip o.no_hits
              o.record_and_get_hits o.recaptcha_site_key
              (client o ip req)
              req
              store
              reply
          → Agrees others method req ip sent
              (respond o reply)
              (respond (with_oracle oracle o) reply)
      unfolding respond
      Agrees-respond bad_request after h ours = inl refl
      Agrees-respond (render_not_found ctx) after h ours = inl refl
      Agrees-respond (method_not_allowed allow) after h ours = inl refl
      Agrees-respond cross_origin_rejected after h ours = inl refl
      Agrees-respond (call_get handler ctx) after h ours = inl (ap some (get_page-same handler ctx))
      Agrees-respond (call_post handler ctx bytes) after (posted, root, ok_origin, given, _, _)
            ours =
          elim (form-Consults handler ctx bytes) [
            | inl same ↦ inl same
            | inr found ↦ inr (record {
              within = room;
              posted = posted;
              root = root;
              settled = settled;
              ours = ok_origin;
              bytes = bytes;
              received = received ∙ ap (λ (b : Option Text). some (next b)) given;
              looked_up =
                  subst (λ c. Lookup.Consults o.parse_form o.sha256_hex o.send o.parse_json c bytes)
                    (ap (form_context o) ours.0) found;
            })
          ]

      Agrees-Replies :
          (result : Option (Reply HitCounts × Store))
          → Replies o.unicode_lower o.authority_host o.parse_ip o.show_ip o.no_hits
              o.record_and_get_hits o.recaptcha_site_key method req
              (client o ip req)
              body
              store
              result
          → Ours o.unicode_lower o.authority_host o.parse_ip o.show_ip o.no_hits
              o.record_and_get_hits o.recaptcha_site_key
              (client o ip req)
              req
              store
              result
          → Agrees others method req ip sent
              (answer_of o store result)
              (answer_of (with_oracle oracle o) store result)
      Agrees-Replies result (reply, after, e, why) ours = rw e (
          Agrees-ap (λ response. (response, after)) others method req ip sent
            (Agrees-respond reply after why (
              subst
                (Ours o.unicode_lower o.authority_host o.parse_ip o.show_ip o.no_hits
                  o.record_and_get_hits o.recaptcha_site_key (client o ip req) req store)
                e ours)))

      pub Agrees-call_handle :
          is_routed method ≡ true
          → Agrees others method req ip sent
              (call_handle o method req body store)
              (call_handle (with_oracle oracle o) method req body store)
      unfolding call_handle
      Agrees-call_handle routed =
          Agrees-Replies _
            (handle-Replies o.unicode_lower o.authority_host o.parse_ip o.show_ip o.no_hits
              o.record_and_get_hits o.recaptcha_site_key o.to_bytes method req ip sent body store
              connected routed settled received)
            (Ours-handle o.unicode_lower o.authority_host o.parse_ip o.show_ip o.no_hits
              o.record_and_get_hits o.recaptcha_site_key method req ip body store connected)
