-- ===== src/Tests/Handlers.antt =====
-- A posted request of the thread pool.
use video_match.Base.{◌≡◌, refl, true, false, any_of, bytes_of, pos}
use video_match.DbFile.Saving.{long_name}
use video_match.Handler.{Request, http_post, my_handler}
use video_match.Handler.Routing.{Handled, posted, my_handler-Handled}
use video_match.Tests.Requests.{toy_json}
use video_match.Tests.Scaled.{scaled}
use video_match.Tests.{plain, plain_orders, sample_db, sample_db-IsValid}
use video_match.VideoDb.Adding.{after_add}

abbrev add_post : Request
add_post = record {
  type = http_post;
  path = bytes_of "/";
  in_threadpool = true;
  postdata = bytes_of "bird";
}

short_names : any_of long_name sample_db.db ≡ false
unfolding after_add
short_names = refl

my_handler-Handled_example :
    Handled scaled toy_json
      (posted scaled toy_json add_post)
      true
      sample_db
      (my_handler scaled toy_json plain plain_orders (pos 5) true add_post sample_db)
my_handler-Handled_example =
    my_handler-Handled scaled toy_json plain plain_orders (pos 5) true add_post sample_db
      sample_db-IsValid short_names
