-- ===== src/Startup/Ordered.antt =====
-- cmd/bot/main.go: what comes before the start of the engine, and after it.
use polymarket_go_bot.Prelude.{
  String, ◌≡◌, refl, Bool, true, false, List, [], ◌∷◌, ◌++◌, if◌then◌else◌, arith, ◌⊎◌, inl, inr,
}
use polymarket_go_bot.Prelude.Fallible.{Fallible, ok, fails}
use polymarket_go_bot.Config.{Config}
use polymarket_go_bot.Exchange.Orders.{Client}
use polymarket_go_bot.Startup.{
  Boot, Action, send_info, start, await_signal, cancel, stop, told, options_of, new_postgres,
  new_client, on_client, on_storage, on_config, run_main,
}

abbrev pub Starts : Client → List Action → Type 0
Starts c [] = ⊥
Starts c (a ∷ acts) = (a ≡ start c) ⊎ Starts c acts

-- The actions of a process whose engine starts with the client.
abbrev pub shutdown_of : {D : Type 0} → Config D → Client → List Action
shutdown_of cfg c =
    told cfg "Polybot started"
    ++ (start c ∷ await_signal ∷ (told cfg "Polybot shutting down" ++ cancel ∷ stop ∷ []))

told-Starts :
    {D : Type 0} (cfg : Config D) (message : String) (c : Client) (acts : List Action)
    → Starts c (told cfg message ++ acts)
    → Starts c acts
told-Starts cfg message c acts = go cfg.telegram.enabled
  where
    go : (b : Bool) → Starts c ((if b then send_info message ∷ [] else []) ++ acts) → Starts c acts
    go true (inl e) = absurd (ground arith)
    go true (inr h) = h
    go false h = h

module _ {D K : Type 0} (b : Boot D K) (c : Client) where
  -- main starts the engine only if the configuration loads, the storage has been brought to its last
  -- migration and the client has been built, and it starts with that client; then it waits for a signal,
  -- cancels the context and stops the engine, in this order, and does nothing else but send the two
  -- messages.
  pub run_main-Starts :
      Starts c (run_main b)
      → (cfg : Config D) × (b.load ≡ ok cfg)
        × (new_postgres b.open_ b.ping b.set_dialect b.up ≡ ok tt)
        × (new_client b cfg (options_of cfg) ≡ ok c)
        × (run_main b ≡ shutdown_of cfg c)
  unfolding run_main
  run_main-Starts h = configured b.load refl h
    where
      built : (cfg : Config D) (r : Fallible Client) → Starts c (on_client cfg r) → r ≡ ok c
      built cfg fails (inl e) = absurd (ground arith)
      built cfg fails (inr h) = absurd h
      built cfg (ok cli) (inl e) = ground arith
      built cfg (ok cli) (inr (inl e)) = absurd (ground arith)
      built cfg (ok cli) (inr (inr h)) =
          absurd (over (told-Starts cfg "Polybot shutting down" c _ h))
        where
          over : Starts c (cancel ∷ stop ∷ []) → ⊥
          over (inl e) = ground arith
          over (inr (inl e)) = ground arith
          over (inr (inr e)) = e

      stored :
          (cfg : Config D) (r : Fallible (Unit {0}))
          → Starts c (on_storage b cfg r)
          → (r ≡ ok tt) × (new_client b cfg (options_of cfg) ≡ ok c)
      stored cfg fails (inl e) = absurd (ground arith)
      stored cfg fails (inr h) = absurd h
      stored cfg (ok u) h = (refl, built cfg (new_client b cfg (options_of cfg)) h)

      configured :
          (r : Fallible (Config D))
          → b.load ≡ r
          → Starts c (on_config b r)
          → (cfg : Config D) × (b.load ≡ ok cfg)
            × (new_postgres b.open_ b.ping b.set_dialect b.up ≡ ok tt)
            × (new_client b cfg (options_of cfg) ≡ ok c)
            × (on_config b b.load ≡ shutdown_of cfg c)
      configured fails e (inl k) = absurd (ground arith)
      configured fails e (inr k) = absurd k
      configured (ok cfg) e k =
          let (up, made) =
            stored cfg (new_postgres b.open_ b.ping b.set_dialect b.up)
              (told-Starts cfg "Polybot started" c _ k) in
          (cfg, e, up, made, rw e (rw up (rw made refl)))
