-- ===== src/Server/Tests.antt =====
-- Two requests to a server, and a server that cannot bind.
use mixsim.Prelude.{◌++◌, ◌≡◌, refl, List, [], ◌∷◌, pos, negsuc, arith}
use mixsim.CText.{codes, print_uint}
use mixsim.Server.{
  print_int, consumer, test_provider, Action, receives, sends, exits, Round, answer, time_text,
  serve, time_server,
}
use mixsim.Server.Serve.{
  time_data, sent_packets, IsFine, time_server-answers, OffersAtMost, serve-OffersAtMost,
}

abbrev short_request : Round
short_request = record {
  received = pos 0;
  name = codes "/a/1";
  nlen = 4;
  dlen = 0;
  now = 1700000000;
  sent = pos 0;
}

abbrev long_request : Round
long_request = record {
  received = pos 0;
  name = codes "/a/22222";
  nlen = 4;
  dlen = 0;
  now = 4294967295;
  sent = pos 0;
}

short_request-IsFine : IsFine short_request
short_request-IsFine = record { received_ok = refl; sent_ok = refl }

long_request-IsFine : IsFine long_request
long_request-IsFine = record { received_ok = refl; sent_ok = refl }

-- A time behind the year 2106 is printed as a negative number.
text_of_last_second : time_text 4294967295 ≡ codes "current time: -1"
unfolding time_text print_uint
text_of_last_second = refl

exit_of_server :
    time_server (pos 3) (negsuc 0) [] ≡ Action.bound (codes "/mixsim/real/time") ∷ exits ∷ []
unfolding time_server
exit_of_server = refl

-- The client asks for a name under the prefix of the provider.
requests_of_consumer :
    sent_packets (consumer (pos 3) (pos 0) (pos 0) [] 0)
    ≡ record {
      type_ = 5;
      name = codes "/Rpi-1/lab1038/info/about" ++ codes "/10Mfile.txt/3333";
      nlen = 42;
      content = [];
      dlen = 0;
    }
      ∷ []
unfolding consumer
requests_of_consumer = refl

time_server-answers_example :
    (later : List Action) × (time_server (pos 3) (pos 0) (short_request ∷ long_request ∷ [])
      ≡ Action.bound (codes "/mixsim/real/time") ∷ later)
    × (test_provider (pos 3) (pos 0) (short_request ∷ long_request ∷ [])
        ≡ Action.bound (codes "/Rpi-1/lab1038/info/about") ∷ later)
    × (sent_packets later
        ≡ record {
          type_ = 6;
          name = codes "/a/1";
          nlen = 4;
          content = codes "current time: 1700000000";
          dlen = 24;
        }
          ∷ time_data long_request
          ∷ [])
unfolding print_int print_uint
time_server-answers_example =
    time_server-answers 3 0 (short_request ∷ long_request ∷ [])
      (short_request-IsFine, (long_request-IsFine, tt))

serve-OffersAtMost_example :
    (later : List Action) × ((serve 1024 2048 0 (short_request ∷ long_request ∷ [])).0
      ≡ receives 1024 2048 ∷ sends (answer short_request) ∷ later)
    × OffersAtMost 4 0 later
serve-OffersAtMost_example =
    serve-OffersAtMost short_request (long_request ∷ []) 1024 2048 0 short_request-IsFine
      (omega arith, omega arith, (omega arith, omega arith, tt))
