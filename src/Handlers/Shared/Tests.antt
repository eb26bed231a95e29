-- ===== src/Handlers/Shared/Tests.antt =====
-- The shared contexts, with texts for the clients.
use contract_pinger.Common.{◌≡◌, refl, [], ◌∷◌, none, some, String}
use contract_pinger.BidirectionalTx.{dev, testnet}
use contract_pinger.Handlers.{Keys, ok, err, solana_url_missing, resolve_config}
use contract_pinger.BidirectionalTx.{mainnet}
use contract_pinger.Handlers.Shared.{Clients, build_provider, init_solana, get_shared, share_all}

abbrev lib : Clients String String String
lib = record {
  key_pair = λ s. some "pair";
  provider = λ url k. url;
  public_key = λ k. k;
  contract = λ program p requester quiet. requester;
}

abbrev keys : Keys
keys = record {
  sepolia_url = "";
  mainnet_url = "";
  slots = λ n. none;
  solana_dev_url = "http://devnet";
  solana_mainnet_url = "";
  solana_key = "[1]";
}

-- A ping's contract speaks for the drawn pair.
drawn : init_solana lib keys "prog" dev "drawn" ≡ ok ("drawn", "http://devnet", "drawn")
unfolding init_solana build_provider resolve_config
drawn = refl

no_url : get_shared lib keys [] "prog" mainnet ≡ ([], err (solana_url_missing mainnet))
unfolding get_shared build_provider resolve_config
no_url = refl

again :
    (get_shared lib keys
      (share_all lib keys [] (("prog", dev) ∷ ("other", testnet) ∷ []))
      "prog"
      dev).1
    ≡ ok (record { provider = "http://devnet"; keypair = "pair"; contract = "pair" })
unfolding get_shared share_all build_provider resolve_config
again = refl
