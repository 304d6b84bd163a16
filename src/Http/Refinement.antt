-- ===== src/Http/Refinement.antt =====
-- internal/transport/http over internal/application: what a request to the router does to the stores.
use taskpulse.Prelude.{
  ℕ, map, String, refl, Bool, inl, inr, Option, none, some, List, [], ◌∷◌, Bool-cases, Option-cases,
  Assoc, lookup,
}
use taskpulse.Store.Both.{Stores}
use taskpulse.Application.Codec.{Codec}
use taskpulse.Application.TaskDetail.{DetailCodec}
use taskpulse.System.{Operation, Run}
use taskpulse.Http.{Handler, Request}
use taskpulse.Http.Decoding.{Decoders}
use taskpulse.Http.WorkerHandlers.{Claims}
use taskpulse.Http.Router.{
  Endpoint, Mux, RawRequest, Draws, request_of, handle, dispatch, new_router, serve, name_of,
}
use taskpulse.Http.Steps.{IsStep, IsRefused, refused, Run-IsStep, operation_of, is_worker}
use taskpulse.Http.TaskSteps.{task_handlers-IsStep}
use taskpulse.Http.WorkerSteps.{worker_handlers-IsStep}

module _ {Seconds : Type 0} (seconds : ℕ → Seconds) (codec : Codec) (details : DetailCodec)
    (decoders : Decoders) (h : Handler) where
  handle-IsStep :
      (endpoint : Endpoint) (r : Request) (d : Draws) (c : Claims)
      → let out = handle seconds codec details decoders h endpoint r d c in
        IsStep codec
          (IsRefused out.0)
          d.ctx
          (operation_of decoders endpoint r d)
          c.stores
          out.1.stores
  handle-IsStep endpoint r d c = elim (Bool-cases (is_worker endpoint)) [
    | inl e ↦ worker_handlers-IsStep seconds codec details decoders h endpoint r d c e
    | inr e ↦ task_handlers-IsStep seconds codec details decoders h endpoint r d c e
  ]

  -- What a request asks for by the pattern that the mux takes for it.
  abbrev pub asked_of :
      Assoc Endpoint → Option (String × String) → RawRequest → Draws → Option Operation
  asked_of routes none raw d = none
  asked_of routes (some (pattern, id)) raw d = elim (lookup pattern routes) [
    | none ↦ none
    | some endpoint ↦ operation_of decoders endpoint (request_of raw id) d
  ]

  dispatch-IsStep :
      (routes : Assoc Endpoint) (chosen : Option (String × String)) (raw : RawRequest) (d : Draws)
      (c : Claims)
      → let out = dispatch seconds codec details decoders h routes chosen raw d c in
        IsStep codec (IsRefused out.0) d.ctx (asked_of routes chosen raw d) c.stores out.1.stores
  dispatch-IsStep routes none raw d c = refused tt refl
  dispatch-IsStep routes (some (pattern, id)) raw d c =
      elim (Option-cases (lookup pattern routes)) [
        | inl e ↦ rw (e, dispatch, asked_of) (refused tt refl)
        | inr (endpoint, e) ↦
            rw (e, dispatch, asked_of) (handle-IsStep endpoint (request_of raw id) d c)
      ]

  abbrev pub asked : Mux → Bool → RawRequest → Draws → Option Operation
  asked mux metrics raw d =
      let routes = new_router h metrics in
      asked_of routes (mux (map name_of routes) raw.method raw.path) raw d

  -- A request to the router changes the stores exactly by the one operation of the server that it asks
  -- for, by its route and with what its body and path say; or it changes nothing, and then it asks for
  -- none, no handler matches, or the answer is an error.
  pub serve-IsStep :
      (mux : Mux) (metrics : Bool) (raw : RawRequest) (d : Draws) (c : Claims)
      → let out = serve seconds codec details decoders h mux metrics raw d c in
        IsStep codec (IsRefused out.0) d.ctx (asked mux metrics raw d) c.stores out.1.stores
  unfolding serve
  serve-IsStep mux metrics raw d c =
      dispatch-IsStep (new_router h metrics)
        (mux (map name_of (new_router h metrics)) raw.method raw.path) raw d c

  -- Requests one after another, each with what its handler reads.
  unfoldable pub serve_all : Mux → Bool → List (RawRequest × Draws) → Claims → Claims
  unfolding serve
  serve_all mux metrics [] c = c
  serve_all mux metrics ((raw, d) ∷ more) c =
      serve_all mux metrics more (serve seconds codec details decoders h mux metrics raw d c).1

  -- Whatever requests the router gets, in any order, authorised or not and with any bodies: the
  -- stores they lead to are those that a run of the operations of the server leads to.
  pub serve_all-Run :
      (mux : Mux) (metrics : Bool) (requests : List (RawRequest × Draws)) (c : Claims) {s : Stores}
      → Run codec s c.stores
      → Run codec s (serve_all mux metrics requests c).stores
  unfolding serve_all
  serve_all-Run mux metrics [] c r = r
  serve_all-Run mux metrics ((raw, d) ∷ more) c r =
      serve_all-Run mux metrics more (serve seconds codec details decoders h mux metrics raw d c).1
        (Run-IsStep codec r (serve-IsStep mux metrics raw d c))
